-- ===== src/Auth/Sound.antt =====
-- What holds of the session that a token gives (auth/service.py).
use foundora_ai.Base.{
  ◌+◌, ◌≤◌, ◌<◌, ◌≡◌, ◌⊎◌, inl, inr, refl, ap, ◌∙◌, arith, String, true, Option, none, some, ok,
  ◌==◌, nat_eq, string_eq, eq-of_beq, ltb, leb, find, find_sound, Datetime, text_length, Bool-cases,
  Option-cases, leb→le,
}
use foundora_ai.Business.{OwnerSession, is_none}
use foundora_ai.Auth.Model.{Owner, Settings, Crypto, AuthStore}
use foundora_ai.Auth.Service.{idle_refresh_interval}
use foundora_ai.Auth.Sessions.{
  ResolvedSession, is_over, close_session, is_stale, refreshed, keep_session, find_session,
  use_session, resolve_session,
}

-- The row that a token names.
abbrev pub row_of : Crypto → String → AuthStore → Option OwnerSession
row_of crypto token s = find (λ y. y.token_hash == crypto.digest token) s.sessions

-- What holds when a token resolves to a session.
pub record IsLive (crypto : Crypto) (settings : Settings) (token : String) (s : AuthStore)
    (r : ResolvedSession) : Type 0 where
  pub short : text_length token ≤ 256
  pub row : OwnerSession
  pub found : row_of crypto token s ≡ some row
  pub open_row : row.revoked_at ≡ none
  pub before_end : s.clock s.ticks < row.expires_at
  pub before_idle : s.clock s.ticks < row.idle_expires_at
  pub owned : r.owner.id ≡ row.owner_id
  pub result :
      (r.session ≡ row)
      ⊎ ((row.last_seen_at + idle_refresh_interval settings ≤ s.clock s.ticks)
          × (r.session ≡ refreshed settings row (s.clock s.ticks)))

none_of : (o : Option Datetime) → is_none o ≡ true → o ≡ none
none_of none e = refl
none_of (some t) e = absurd (ground arith)

kept-result :
    (settings : Settings) (o : Owner) (x : OwnerSession) (at : Datetime) (s s' : AuthStore)
    (r : ResolvedSession)
    → keep_session settings o x at s ≡ ok (some r, s')
    → (r.owner ≡ o)
      × ((r.session ≡ x)
          ⊎ ((x.last_seen_at + idle_refresh_interval settings ≤ at)
              × (r.session ≡ refreshed settings x at)))
unfolding keep_session is_stale
kept-result settings o x at s s' r h =
    elim (Bool-cases (leb (x.last_seen_at + idle_refresh_interval settings) at)) [
      | inl t ↦ (
        ground arith,
        inr (leb→le (x.last_seen_at + idle_refresh_interval settings) at t, ground arith),
      )
      | inr f ↦ (ground arith, inl (ground arith))
    ]

-- A token that resolves to a session has at most 256 characters and names a row that is not revoked and
-- whose two expiries both lie after the reading of the clock; the session belongs to the row's owner,
-- and is the row as it stands, or the refreshed one if the interval of refreshing has passed.
pub resolve_session-IsLive :
    (crypto : Crypto) (settings : Settings) (token : String) (s s' : AuthStore)
    (r : ResolvedSession)
    → resolve_session crypto settings (some token) s ≡ ok (some r, s')
    → IsLive crypto settings token s r
unfolding resolve_session find_session use_session close_session is_over
resolve_session-IsLive crypto settings token s s' r h =
    elim (Bool-cases (ltb 256 (text_length token))) [
      | inl long ↦ absurd (ground arith)
      | inr short ↦ elim (Option-cases (row_of crypto token s)) [
        | inl missing ↦ absurd (ground arith)
        | inr (x, found) ↦ elim (Option-cases (find (λ o. o.id == x.owner_id) s.owners)) [
          | inl missing ↦ absurd (ground arith)
          | inr (o, owned) ↦ elim (Bool-cases (is_over x (s.clock s.ticks))) [
            | inl over ↦ absurd (ground arith)
            | inr current ↦
                let (owner, result) =
                  kept-result settings o x (s.clock s.ticks) _ s' r
                    (rw (short, found, owned, current) at h) in
                record {
                  short = ground arith;
                  row = x;
                  found = found;
                  open_row = none_of x.revoked_at (ground arith);
                  before_end = ground arith;
                  before_idle = ground arith;
                  owned =
                      ap (λ (y : Owner). y.id) owner
                      ∙ eq-of_beq o.id x.owner_id
                          (find_sound (λ (y : Owner). y.id == x.owner_id) s.owners o owned);
                  result = result;
                }
          ]
        ]
      ]
    ]
