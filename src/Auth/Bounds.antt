-- ===== src/Auth/Bounds.antt =====
-- The two expiries of a session, between transactions.
pub mod Reach
use foundora_ai.Base.{
  ℕ, suc, ◌+◌, ◌≤◌, ◌≡◌, ◌⊎◌, inl, inr, min, refl, sym, ap, subst, ◌∙◌, arith, String, Bool, true,
  false, ◌&&◌, ◌||◌, not, Option, none, some, List, [], ◌∷◌, ◌++◌, ok, err, pure, ◌==◌, nat_eq,
  string_eq, ltb, leb, find, put, All, All-append, All-put, All-find, Uuid, Datetime, text_length,
  Bool-cases, Option-cases, Result-cases, ok-injective,
}
use foundora_ai.Business.{OwnerSession, AuthContext, is_none}
use foundora_ai.Auth.Model.{Owner, Settings, Crypto, AuthStore}
use foundora_ai.Auth.Passwords.{normalize_email, validate_password, verify_password, hash_password}
use foundora_ai.Auth.Service.{
  minutes, revoke_if, revoke_where, new_session, issue, replace_password, change_password,
  IssuedSession, provision, provision_owner, refresh_hash, sign_in, authenticate, lookup_email,
}
use foundora_ai.Auth.Sessions.{
  ResolvedSession, is_over, is_stale, close_session, refreshed, keep_session, find_session,
  use_session, resolve_session, revoke_current, revoke_other_sessions, is_other,
}

-- A session does not idle past its absolute end, and lives at most for the configured time.
pub record IsBounded (settings : Settings) (x : OwnerSession) : Type 0 where
  pub idle : x.idle_expires_at ≤ x.expires_at
  pub life : x.expires_at ≤ x.created_at + minutes settings.session_absolute_minutes

pub IsBounded-new_session :
    (crypto : Crypto) (settings : Settings) (owner_id : Uuid) (user_agent : Option String)
    (at : Datetime) (token csrf_token : String) (id : Uuid)
    → IsBounded settings (new_session crypto settings owner_id user_agent at token csrf_token id)
unfolding new_session
IsBounded-new_session crypto settings owner_id user_agent at token csrf_token id = record {
  idle = omega arith;
  life = omega arith;
}

pub IsBounded-refreshed :
    (settings : Settings) (x : OwnerSession) (at : Datetime)
    → IsBounded settings x
    → IsBounded settings (refreshed settings x at)
unfolding refreshed
IsBounded-refreshed settings x at b = record { idle = omega arith; life = b.life }

pub IsBounded-revoke_where :
    (settings : Settings) (p : OwnerSession → Bool) (at : Datetime) (xs : List OwnerSession)
    → All (IsBounded settings) xs
    → All (IsBounded settings) (revoke_where p at xs)
unfolding revoke_where revoke_if
IsBounded-revoke_where settings p at [] h = tt
IsBounded-revoke_where settings p at (x ∷ xs) h =
    let rest = IsBounded-revoke_where settings p at xs h.1 in
    elim (Bool-cases (p x && is_none x.revoked_at)) [
      | inl t ↦ rw t (record { idle = h.0.idle; life = h.0.life }, rest)
      | inr f ↦ rw f (h.0, rest)
    ]

unfoldable pub AreBounded : Settings → AuthStore → Type 0
AreBounded settings s = All (IsBounded settings) s.sessions
