-- ===== src/Auth/Dead.antt =====
-- Tokens that give no session, whatever the clock shows (auth/service.py).
use foundora_ai.Base.{
  ℕ, ◌≡◌, inl, inr, refl, ap, arith, String, Bool, true, false, ◌&&◌, Option, none, some, List, [],
  ◌∷◌, ok, err, ◌==◌, nat_eq, string_eq, ltb, find, Datetime, text_length, Bool-cases, Option-cases,
  Result,
}
use foundora_ai.Business.{OwnerSession, is_none}
use foundora_ai.Auth.Model.{AuthError, Owner, Settings, Crypto, AuthStore}
use foundora_ai.Auth.Service.{revoke_if, revoke_where}
use foundora_ai.Auth.Sessions.{
  ResolvedSession, is_over, close_session, find_session, use_session, resolve_session,
}
use foundora_ai.Auth.Sound.{row_of}

abbrev pub gives_none : Result AuthError (Option ResolvedSession × AuthStore) → Bool
gives_none (ok (none, s)) = true
gives_none (ok (some r, s)) = false
gives_none (err e) = false

-- A token that gives no session, whatever the clock shows.
unfoldable pub IsDead : Crypto → Settings → String → AuthStore → Type 0
IsDead crypto settings token s =
    (clock : ℕ → Datetime)
    → gives_none (resolve_session crypto settings (some token) (record s { clock = clock })) ≡ true

pub IsDead-of_revoked :
    (crypto : Crypto) (settings : Settings) (token : String) (s : AuthStore) (x : OwnerSession)
    → row_of crypto token s ≡ some x
    → is_none x.revoked_at ≡ false
    → IsDead crypto settings token s
unfolding IsDead resolve_session use_session find_session is_over close_session
IsDead-of_revoked crypto settings token s x found revoked clock =
    elim (Bool-cases (ltb 256 (text_length token))) [
      | inl long ↦ rw long refl
      | inr short ↦ elim (Option-cases (find (λ (o : Owner). o.id == x.owner_id) s.owners)) [
        | inl missing ↦ rw (short, found, missing) refl
        | inr (o, owned) ↦ rw (short, found, owned, revoked) refl
      ]
    ]

pub IsDead-of_missing :
    (crypto : Crypto) (settings : Settings) (token : String) (s : AuthStore) (x : OwnerSession)
    → row_of crypto token s ≡ some x
    → find (λ (o : Owner). o.id == x.owner_id) s.owners ≡ none
    → IsDead crypto settings token s
unfolding IsDead resolve_session use_session find_session
IsDead-of_missing crypto settings token s x found missing clock =
    elim (Bool-cases (ltb 256 (text_length token))) [
      | inl long ↦ rw long refl
      | inr short ↦ rw (short, found, missing) refl
    ]

pub IsDead-of_long :
    (crypto : Crypto) (settings : Settings) (token : String) (s : AuthStore)
    → ltb 256 (text_length token) ≡ true
    → IsDead crypto settings token s
unfolding IsDead resolve_session
IsDead-of_long crypto settings token s long clock = rw long refl

pub find-revoke_where :
    (p q : OwnerSession → Bool) (at : Datetime) (xs : List OwnerSession) (x : OwnerSession)
    → ((y : OwnerSession) → q (revoke_if p at y) ≡ q y)
    → find q xs ≡ some x
    → find q (revoke_where p at xs) ≡ some (revoke_if p at x)
unfolding revoke_where
find-revoke_where p q at [] x same h = absurd (ground arith)
find-revoke_where p q at (y ∷ ys) x same h = elim (Bool-cases (q y)) [
  | inl t ↦
      let this : y ≡ x = ground arith in rw (same y, t) (ap (λ z. some (revoke_if p at z)) this)
  | inr f ↦ rw (same y, f) (find-revoke_where p q at ys x same (rw f at h))
]

pub revoked_if :
    (p : OwnerSession → Bool) (at : Datetime) (x : OwnerSession)
    → p x ≡ true
    → is_none (revoke_if p at x).revoked_at ≡ false
unfolding revoke_if
revoked_if p at x h = elim (Bool-cases (is_none x.revoked_at)) [
  | inl t ↦ rw (h, t) refl
  | inr f ↦ rw (h, f) f
]

pub same_hash :
    (p : OwnerSession → Bool) (at : Datetime) (hash : String) (y : OwnerSession)
    → ((revoke_if p at y).token_hash == hash) ≡ (y.token_hash == hash)
unfolding revoke_if
same_hash p at hash y = elim (Bool-cases (p y && is_none y.revoked_at)) [
  | inl t ↦ rw t refl
  | inr f ↦ rw f refl
]
