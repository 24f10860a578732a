-- ===== src/Auth/Lasting.antt =====
-- A session that is revoked stays revoked, whatever the service does afterwards.
use foundora_ai.Base.{
  find-put_own, closed-put, All-mono, suc, ◌<◌, ◌≡◌, inl, inr, refl, sym, ap, ◌∙◌, arith, String,
  Bool, true, false, some, List, [], ◌∷◌, ◌++◌, map, ◌==◌, nat_eq, string_eq, eq_self, eq-of_beq,
  All, All-find, find, put, ◌&&◌, find_sound, Distinct, Uuid, Datetime, Bool-cases, IsClosed,
  row-IsClosed, apart, IsClosed-later, IsClosed-insert, IsClosed-put, IsClosed-map, rows-of_found,
}
use foundora_ai.Business.{OwnerSession, is_none}
use foundora_ai.Auth.Model.{Settings, Crypto, AuthStore}
use foundora_ai.Auth.Service.{revoke_if, revoke_where, new_session}
use foundora_ai.Auth.Sessions.{refreshed}
use foundora_ai.Auth.Sound.{row_of}
use foundora_ai.Auth.Histories.{Reach, IsKept, reached}
use foundora_ai.Auth.Dead.{IsDead, IsDead-of_revoked, find-revoke_where, revoked_if, same_hash}

-- The id of a session identifies it, and is older than the next one.
pub record IsKeyed (s : AuthStore) : Type 0 where
  pub distinct : Distinct (λ (x : OwnerSession). x.id) s.sessions
  pub old : All (λ (x : OwnerSession). x.id < s.next_uuid) s.sessions

-- The row of the token has the id and is revoked.
abbrev pub IsRevoked : Crypto → String → Uuid → AuthStore → Type 0
IsRevoked crypto token id s =
    IsClosed (λ (y : OwnerSession). y.id) (λ y. is_none y.revoked_at)
      (λ y. y.token_hash == crypto.digest token) id s.sessions s.next_uuid

revoke_where-map :
    (p : OwnerSession → Bool) (at : Datetime) (xs : List OwnerSession)
    → revoke_where p at xs ≡ map (revoke_if p at) xs
unfolding revoke_where
revoke_where-map p at [] = refl
revoke_where-map p at (x ∷ xs) = ap (λ ys. revoke_if p at x ∷ ys) (revoke_where-map p at xs)

same_id :
    (p : OwnerSession → Bool) (at : Datetime) (y : OwnerSession) → (revoke_if p at y).id ≡ y.id
unfolding revoke_if
same_id p at y = elim (Bool-cases (p y && is_none y.revoked_at)) [
  | inl t ↦ rw t refl
  | inr f ↦ rw f refl
]

stays_revoked :
    (p : OwnerSession → Bool) (at : Datetime) (y : OwnerSession)
    → is_none y.revoked_at ≡ false
    → is_none (revoke_if p at y).revoked_at ≡ false
unfolding revoke_if
stays_revoked p at y h = elim (Bool-cases (p y && is_none y.revoked_at)) [
  | inl t ↦ rw t refl
  | inr f ↦ rw f h
]

-- The row that another token names does not stand in the place of a revoked one.
other_row :
    (crypto : Crypto) (token used : String) (id : Uuid) (s : AuthStore) (x : OwnerSession)
    → IsRevoked crypto token id s
    → row_of crypto used s ≡ some x
    → is_none x.revoked_at ≡ true
    → (x.token_hash == crypto.digest token) ≡ false
other_row crypto token used id s x c found live =
    elim (Bool-cases (x.token_hash == crypto.digest token)) [
      | inr f ↦ f
      | inl t ↦
          let used_hash : x.token_hash ≡ crypto.digest used =
            eq-of_beq x.token_hash (crypto.digest used) (
              find_sound (λ (y : OwnerSession). y.token_hash == crypto.digest used) s.sessions x
                found) in
          let same : crypto.digest used ≡ crypto.digest token =
            sym used_hash ∙ eq-of_beq x.token_hash (crypto.digest token) t in
          let this : row_of crypto token s ≡ some x =
            ap (λ h. find (λ (y : OwnerSession). y.token_hash == h) s.sessions) (sym same)
            ∙ found in
          let closed =
            row-IsClosed (λ (y : OwnerSession). y.id) (λ y. is_none y.revoked_at)
              (λ y. y.token_hash == crypto.digest token) id s.sessions s.next_uuid c in
          let row : some c.row ≡ some x = sym c.found ∙ this in absurd (ground arith)
    ]

pub IsRevoked-insert :
    (crypto : Crypto) (token : String) (id : Uuid) (s s' : AuthStore) (x : OwnerSession)
    → IsRevoked crypto token id s
    → s'.sessions ≡ s.sessions ++ x ∷ []
    → x.id ≡ s.next_uuid
    → s'.next_uuid ≡ suc s.next_uuid
    → IsRevoked crypto token id s'
IsRevoked-insert crypto token id s s' x c e new next =
    let old = c.old in
    IsClosed-insert _ _ _ _ s.sessions s'.sessions x s.next_uuid s'.next_uuid e
      (λ same. omega (arith, new)) (omega (arith, next)) c

IsRevoked-IsKept :
    (crypto : Crypto) (settings : Settings) (token : String) (id : Uuid)
    → IsKept crypto settings (IsRevoked crypto token id)
unfolding new_session refreshed
IsRevoked-IsKept crypto settings token id = record {
  quiet =
      λ s s' e le c. IsClosed-later _ _ _ _ s.sessions s'.sessions s.next_uuid s'.next_uuid e le c;
  issued = λ owner_id user_agent at t csrf_token s s' e next c.
      IsClosed-insert _ _ _ _ s.sessions s'.sessions
        (new_session crypto settings owner_id user_agent at t csrf_token s.next_uuid) s.next_uuid
        s'.next_uuid e (omega arith) (omega arith) c;
  revoked = λ p at s s' e next c.
      IsClosed-map _ _ _ _ (revoke_if p at) s.sessions s'.sessions s.next_uuid s'.next_uuid
        (e ∙ revoke_where-map p at s.sessions) (same_id p at) (same_hash p at (crypto.digest token))
        (stays_revoked p at) (omega arith) c;
  written = λ used x b at s s' found live change e next c.
      let n =
        apart (λ (y : OwnerSession). y.id) (λ y. is_none y.revoked_at)
          (λ y. y.token_hash == crypto.digest token) id (λ y. y.token_hash == crypto.digest used)
          s.sessions s.next_uuid x c found live in
      let keys : (b.id ≡ x.id) × (b.token_hash ≡ x.token_hash) = elim change [
        | inl closed ↦
            (ap (λ (y : OwnerSession). y.id) closed, ap (λ (y : OwnerSession). y.token_hash) closed)
        | inr fresh ↦
            (ap (λ (y : OwnerSession). y.id) fresh, ap (λ (y : OwnerSession). y.token_hash) fresh)
      ] in
      IsClosed-put _ _ _ _ s.sessions s'.sessions b s.next_uuid s'.next_uuid
        (e ∙ ap (λ i. put (λ (y : OwnerSession). y.id == i) b s.sessions) (sym keys.0))
        (λ same. n (sym keys.0 ∙ same))
        (ap (λ h. h == crypto.digest token) keys.1
          ∙ other_row crypto token used id s x c found live)
        (omega arith) c;
}

-- The row of a token that was revoked, where ids identify the rows.
pub IsRevoked-of_row :
    (crypto : Crypto) (token : String) (s : AuthStore) (x : OwnerSession)
    → IsKeyed s
    → row_of crypto token s ≡ some x
    → is_none x.revoked_at ≡ false
    → IsRevoked crypto token x.id s
IsRevoked-of_row crypto token s x keyed found revoked = record {
  row = x;
  found = found;
  of_key = refl;
  rows =
      All-mono (λ (y : OwnerSession). y.id ≡ x.id → y ≡ x)
        (λ y. y.id ≡ x.id → is_none y.revoked_at ≡ false) s.sessions
        (λ y same e. ap (λ (z : OwnerSession). is_none z.revoked_at) (same e) ∙ revoked)
        (rows-of_found (λ (y : OwnerSession). y.id) (λ y. y.token_hash == crypto.digest token)
          s.sessions x keyed.distinct found);
  old = All-find (λ (y : OwnerSession). y.id < s.next_uuid) _ s.sessions x keyed.old found;
}

-- The row of a token that is revoked now.
pub IsRevoked-of_put :
    (crypto : Crypto) (token : String) (s : AuthStore) (x : OwnerSession) (at : Datetime)
    → IsKeyed s
    → row_of crypto token s ≡ some x
    → IsRevoked crypto token x.id (record s {
      sessions = put (λ y. y.id == x.id) (record x { revoked_at = some at }) s.sessions;
    })
IsRevoked-of_put crypto token s x at keyed found = record {
  row = record x { revoked_at = some at };
  found =
      find-put_own (λ (y : OwnerSession). y.token_hash == crypto.digest token)
        (λ (y : OwnerSession). y.id == x.id) (record x { revoked_at = some at }) s.sessions x
        (find_sound (λ (y : OwnerSession). y.token_hash == crypto.digest token) s.sessions x found)
        (eq_self x.id) found;
  of_key = refl;
  rows =
      closed-put (λ (y : OwnerSession). y.id) (λ y. is_none y.revoked_at) x.id
        (record x { revoked_at = some at }) s.sessions refl keyed.distinct;
  old = All-find (λ (y : OwnerSession). y.id < s.next_uuid) _ s.sessions x keyed.old found;
}

swept :
    (p : OwnerSession → Bool) (at : Datetime) (x : OwnerSession) (xs : List OwnerSession)
    → p x ≡ true
    → All (λ y. y.id ≡ x.id → y ≡ x) xs
    → All (λ y. y.id ≡ x.id → is_none y.revoked_at ≡ false) (revoke_where p at xs)
unfolding revoke_where
swept p at x [] hit h = tt
swept p at x (y ∷ ys) hit h =
    (λ e. revoked_if p at y (ap p (h.0 (sym (same_id p at y) ∙ e)) ∙ hit), swept p at x ys hit h.1)

-- The row of a token that was among those revoked.
pub IsRevoked-of_revoke_where :
    (crypto : Crypto) (token : String) (p : OwnerSession → Bool) (at : Datetime) (s : AuthStore)
    (x : OwnerSession)
    → IsKeyed s
    → row_of crypto token s ≡ some x
    → p x ≡ true
    → IsRevoked crypto token x.id (record s { sessions = revoke_where p at s.sessions })
IsRevoked-of_revoke_where crypto token p at s x keyed found hit = record {
  row = revoke_if p at x;
  found =
      find-revoke_where p (λ (y : OwnerSession). y.token_hash == crypto.digest token) at s.sessions
        x (same_hash p at (crypto.digest token)) found;
  of_key = same_id p at x;
  rows = swept p at x s.sessions hit (
      rows-of_found (λ (y : OwnerSession). y.id) (λ y. y.token_hash == crypto.digest token)
        s.sessions x keyed.distinct found);
  old = All-find (λ (y : OwnerSession). y.id < s.next_uuid) _ s.sessions x keyed.old found;
}

-- Once the row of a token is revoked, the token gives no session in any state that the service reaches.
pub IsDead-of_IsRevoked :
    (crypto : Crypto) (settings : Settings) (token : String) (id : Uuid) (s t : AuthStore)
    → IsRevoked crypto token id s
    → Reach crypto settings s t
    → IsDead crypto settings token t
IsDead-of_IsRevoked crypto settings token id s t c r =
    let later =
      reached crypto settings (IsRevoked crypto token id)
        (IsRevoked-IsKept crypto settings token id) s t c r in
    IsDead-of_revoked crypto settings token t later.row later.found (
      row-IsClosed (λ (y : OwnerSession). y.id) (λ y. is_none y.revoked_at)
        (λ y. y.token_hash == crypto.digest token) id t.sessions t.next_uuid later)
