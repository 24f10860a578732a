-- ===== src/Auth/Sessions.antt =====
-- The life of a session in auth/service.py: `resolve_session`, `csrf_is_valid`, and the revocations.
use foundora_ai.Base.{
  ℕ, suc, ◌+◌, min, String, Bool, false, ◌&&◌, ◌||◌, not, Option, none, some, List, ok, pure, ◌>>=◌,
  ◌>>◌, gets, modify, ◌==◌, ◌!=◌, nat_eq, string_eq, if◌then◌else◌, ltb, leb, length, find, put,
  filter, sort_by, Datetime, text_length,
}
use foundora_ai.Business.{OwnerSession, AuthContext, is_none}
use foundora_ai.Auth.Model.{Owner, Settings, Crypto, AuthStore}
use foundora_ai.Auth.Service.{Auth, now, minutes, idle_refresh_interval, revoke_sessions}

abbrev write_session : OwnerSession → Auth (Unit {0})
write_session x = modify (λ s. record s { sessions = put (λ y. y.id == x.id) x s.sessions })

-- A session and its owner, as the join finds them.
pub record ResolvedSession : Type 0 where
  pub owner : Owner
  pub session : OwnerSession

unfoldable pub is_over : OwnerSession → Datetime → Bool
is_over x at = not (is_none x.revoked_at) || (leb x.expires_at at || leb x.idle_expires_at at)

-- `if owner_session.revoked_at is None: ...`
unfoldable pub close_session : OwnerSession → Datetime → Auth (Option ResolvedSession)
close_session x at s =
    if is_none x.revoked_at
    then ok (
      none,
      record s {
        sessions = put (λ y. y.id == x.id) (record x { revoked_at = some at }) s.sessions;
      },
    )
    else ok (none, s)

-- `owner_session.last_seen_at <= now - _idle_refresh_interval(...)`
unfoldable pub is_stale : Settings → OwnerSession → Datetime → Bool
is_stale settings x at = leb (x.last_seen_at + idle_refresh_interval settings) at

unfoldable pub refreshed : Settings → OwnerSession → Datetime → OwnerSession
refreshed settings x at = record x {
  last_seen_at = at;
  idle_expires_at = min x.expires_at (at + minutes settings.session_idle_minutes);
}

unfoldable pub keep_session :
    Settings → Owner → OwnerSession → Datetime → Auth (Option ResolvedSession)
keep_session settings o x at s =
    if is_stale settings x at
    then ok (
      some (record { owner = o; session = refreshed settings x at }),
      record s { sessions = put (λ y. y.id == x.id) (refreshed settings x at) s.sessions },
    )
    else ok (some (record { owner = o; session = x }), s)

abbrev pair_owner : OwnerSession → Option Owner → Option (OwnerSession × Owner)
pair_owner x none = none
pair_owner x (some o) = some (x, o)

abbrev join_owner : Option OwnerSession → List Owner → Option (OwnerSession × Owner)
join_owner none owners = none
join_owner (some x) owners = pair_owner x (find (λ o. o.id == x.owner_id) owners)

unfoldable pub find_session : Crypto → String → AuthStore → Option (OwnerSession × Owner)
find_session crypto token s =
    join_owner (find (λ x. x.token_hash == crypto.digest token) s.sessions) s.owners

unfoldable pub use_session :
    Settings → Option (OwnerSession × Owner) → Datetime → Auth (Option ResolvedSession)
use_session settings none at s = ok (none, s)
use_session settings (some (x, o)) at s =
    if is_over x at then close_session x at s else keep_session settings o x at s

unfoldable pub resolve_session : Crypto → Settings → Option String → Auth (Option ResolvedSession)
resolve_session crypto settings none s = ok (none, s)
resolve_session crypto settings (some token) s =
    if ltb 256 (text_length token)
    then ok (none, s)
    else use_session settings (find_session crypto token s) (s.clock s.ticks)
        (record s { ticks = suc s.ticks })

-- `hmac.compare_digest` is equality of two texts.
unfoldable pub csrf_is_valid : Crypto → OwnerSession → Option String → Bool
csrf_is_valid crypto x none = false
csrf_is_valid crypto x (some csrf_token) =
    not (ltb 256 (text_length csrf_token)) && x.csrf_hash == crypto.digest csrf_token

unfoldable pub revoke_current : AuthContext → Auth (Unit {0})
revoke_current context = do at ← now; revoke_sessions (λ x. x.id == context.session_id) at

abbrev pub is_other : AuthContext → OwnerSession → Bool
is_other context x = x.owner_id == context.owner_id && x.id != context.session_id

unfoldable pub revoke_other_sessions : AuthContext → Auth ℕ
revoke_other_sessions context = do
  at ← now
  sessions ← gets (λ s. s.sessions)
  revoke_sessions (is_other context) at
  pure (length (filter (λ x. is_other context x && is_none x.revoked_at) sessions))

unfoldable pub list_active_sessions : AuthContext → Auth (List OwnerSession)
list_active_sessions context = do
  at ← now
  sessions ← gets (λ s. s.sessions)
  pure (
      sort_by (λ a b. leb b.created_at a.created_at)
        (filter
          (λ x.
            x.owner_id == context.owner_id
            && (is_none x.revoked_at && (ltb at x.expires_at && ltb at x.idle_expires_at)))
          sessions))
