-- ===== src/Auth/Renewed.antt =====
-- What a change of the password and the revocation of other sessions end (auth/service.py).
use foundora_ai.Base.{
  ℕ, suc, subst, ◌≡◌, inl, inr, refl, sym, ap, ◌∙◌, arith, String, Bool, true, false, not, Option,
  none, some, [], ◌∷◌, ◌++◌, ok, ◌==◌, nat_eq, string_eq, eq_self, eq-of_beq, find, find_sound,
  Uuid, Datetime, Bool-cases, Option-cases, Result-cases, ok-injective,
}
use foundora_ai.Business.{OwnerSession, AuthContext}
use foundora_ai.Auth.Model.{Owner, Settings, Crypto, AuthStore}
use foundora_ai.Auth.Passwords.{validate_password, verify_password, hash_password}
use foundora_ai.Auth.Service.{
  revoke_if, revoke_where, new_session, issue, replace_password, change_password, IssuedSession,
}
use foundora_ai.Auth.Sessions.{revoke_other_sessions, is_other}
use foundora_ai.Auth.Sound.{row_of}
use foundora_ai.Auth.Dead.{IsDead, find-revoke_where, same_hash}
use foundora_ai.Auth.Histories.{Reach}
use foundora_ai.Auth.Lasting.{
  IsKeyed, IsRevoked, IsDead-of_IsRevoked, IsRevoked-of_revoke_where, IsRevoked-insert,
}

pub issue-appends :
    (crypto : Crypto) (settings : Settings) (o : Owner) (user_agent : Option String)
    (s s' : AuthStore) (i : IssuedSession)
    → issue crypto settings o user_agent s ≡ ok (i, s')
    → (s'.sessions ≡ s.sessions ++ i.session ∷ [])
      × (i.session.revoked_at ≡ none)
      × (i.session.owner_id ≡ o.id)
      × (i.session.token_hash ≡ crypto.digest i.token)
      × (i.session.id ≡ s.next_uuid)
      × (s'.next_uuid ≡ suc s.next_uuid)
unfolding issue new_session
issue-appends crypto settings o user_agent s s' i h =
    let (result, state) = ok-injective (issue crypto settings o user_agent s) refl h in
    (
      ap (λ (w : AuthStore). w.sessions) (sym state)
          ∙ ap (λ (y : IssuedSession). s.sessions ++ y.session ∷ []) result,
      ap (λ (y : IssuedSession). y.session.revoked_at) (sym result),
      ap (λ (y : IssuedSession). y.session.owner_id) (sym result),
      subst (λ (y : IssuedSession). y.session.token_hash ≡ crypto.digest y.token) result refl,
      ap (λ (y : IssuedSession). y.session.id) (sym result),
      ap (λ (w : AuthStore). w.next_uuid) (sym state),
    )

revoke_if_not :
    (p : OwnerSession → Bool) (at : Datetime) (y : OwnerSession)
    → p y ≡ false
    → revoke_if p at y ≡ y
unfolding revoke_if
revoke_if_not p at y h = rw h refl

not_other :
    (context : AuthContext) (z : OwnerSession)
    → z.id ≡ context.session_id
    → is_other context z ≡ false
not_other context z e = ground arith

-- What a change of the password leaves.
record Renewed (crypto : Crypto) (s s' : AuthStore) (owner_id : Uuid) (at : Datetime)
    (i : IssuedSession) : Type 0 where
  sessions :
      s'.sessions ≡ revoke_where (λ x. x.owner_id == owner_id) at s.sessions ++ i.session ∷ []
  fresh : i.session.revoked_at ≡ none
  owned : i.session.owner_id ≡ owner_id
  named : i.session.token_hash ≡ crypto.digest i.token
  id : i.session.id ≡ s.next_uuid
  next : s'.next_uuid ≡ suc s.next_uuid

Renewed-of_replace :
    (crypto : Crypto) (settings : Settings) (o : Owner) (at : Datetime) (current new : String)
    (user_agent : Option String) (s s' : AuthStore) (i : IssuedSession)
    → replace_password crypto settings o at current new user_agent s ≡ ok (i, s')
    → Renewed crypto s s' o.id at i
unfolding replace_password
Renewed-of_replace crypto settings o at current new user_agent s s' i h =
    elim (Bool-cases (not (verify_password crypto current (some o.password_hash)).0)) [
      | inl wrong ↦ absurd (ground arith)
      | inr right ↦ elim (Result-cases (hash_password crypto new)) [
        | inr (e, bad) ↦ absurd (ground arith)
        | inl (encoded, good) ↦
            let (sessions, fresh, owned, named, id, next) =
              issue-appends crypto settings _ user_agent _ s' i (rw good at (rw right at h)) in
            record {
              sessions = sessions;
              fresh = fresh;
              owned = owned;
              named = named;
              id = id;
              next = next;
            }
      ]
    ]

-- A change of the password that succeeds revokes every session of the owner and adds the new one to
-- the table: it is not revoked, it is the owner's, and the token that is returned names it. A token
-- whose row belonged to the owner before gives no session in any state that the service reaches
-- afterwards by provisionings, sign-ins, uses of tokens, changes of the password and revocations,
-- whatever the clock shows there. Before the change the ids of the sessions are distinct and lie below
-- the next one.
pub change_password-IsDead :
    (crypto : Crypto) (settings : Settings) (context : AuthContext) (current new : String)
    (user_agent : Option String) (s s' t : AuthStore) (i : IssuedSession) (token : String)
    (x : OwnerSession)
    → IsKeyed s
    → change_password crypto settings context current new user_agent s ≡ ok (i, s')
    → row_of crypto token s ≡ some x
    → x.owner_id ≡ context.owner_id
    → Reach crypto settings s' t
    → (s'.sessions
        ≡ revoke_where (λ y. y.owner_id == context.owner_id) (s.clock s.ticks) s.sessions
          ++ i.session ∷ [])
      × (i.session.revoked_at ≡ none)
      × (i.session.owner_id ≡ context.owner_id)
      × (i.session.token_hash ≡ crypto.digest i.token)
      × IsDead crypto settings token t
unfolding change_password
change_password-IsDead crypto settings context current new user_agent s s' t i token x keyed h found
      owned later =
    elim (Result-cases (validate_password new)) [
      | inr (e, bad) ↦ absurd (ground arith)
      | inl (v, valid) ↦
          elim (Option-cases (find (λ (o : Owner). o.id == context.owner_id) s.owners)) [
            | inl missing ↦ absurd (ground arith)
            | inr (o, known) ↦
                let same : o.id ≡ context.owner_id =
                  eq-of_beq o.id context.owner_id
                    (find_sound (λ (y : Owner). y.id == context.owner_id) s.owners o known) in
                let r =
                  Renewed-of_replace crypto settings o (s.clock s.ticks) current new user_agent _ s'
                    i (rw known at (rw valid at h)) in
                let revoked =
                  IsRevoked-of_revoke_where crypto token (λ y. y.owner_id == o.id) (s.clock s.ticks)
                    s x keyed found (ap (λ k. k == o.id) (owned ∙ sym same) ∙ eq_self o.id) in
                (
                  r.sessions
                      ∙ ap
                          (λ k.
                            revoke_where (λ y. y.owner_id == k) (s.clock s.ticks) s.sessions
                            ++ i.session ∷ [])
                          same,
                  r.fresh,
                  r.owned ∙ same,
                  r.named,
                  IsDead-of_IsRevoked crypto settings token x.id s' t
                      (IsRevoked-insert crypto token x.id
                        (record s {
                          sessions =
                              revoke_where (λ y. y.owner_id == o.id) (s.clock s.ticks) s.sessions;
                        })
                        s' i.session revoked r.sessions r.id r.next)
                      later,
                )
          ]
    ]

-- After the other sessions were revoked, the row of the token that asked is as it was. A token of
-- another session of the owner gives none in any state that the service reaches afterwards by
-- provisionings, sign-ins, uses of tokens, changes of the password and revocations, whatever the clock
-- shows there. Before the revocation the ids of the sessions are distinct and lie below the next one.
pub revoke_other_sessions-IsDead :
    (crypto : Crypto) (settings : Settings) (context : AuthContext) (s s' t : AuthStore) (count : ℕ)
    (token own : String) (x y : OwnerSession)
    → IsKeyed s
    → revoke_other_sessions context s ≡ ok (count, s')
    → row_of crypto token s ≡ some x
    → is_other context x ≡ true
    → row_of crypto own s ≡ some y
    → y.id ≡ context.session_id
    → Reach crypto settings s' t
    → (row_of crypto own s' ≡ some y) × IsDead crypto settings token t
unfolding revoke_other_sessions
revoke_other_sessions-IsDead crypto settings context s s' t count token own x y keyed h found other
      mine is_mine later =
    let at = s.clock s.ticks in
    let (result, state) = ok-injective (revoke_other_sessions context s) refl h in
    let rows : revoke_where (is_other context) at s.sessions ≡ s'.sessions =
      ap (λ (w : AuthStore). w.sessions) state in
    (
      ap (find (λ (z : OwnerSession). z.token_hash == crypto.digest own)) (sym rows)
          ∙ find-revoke_where (is_other context)
              (λ (z : OwnerSession). z.token_hash == crypto.digest own) at s.sessions y
              (same_hash (is_other context) at (crypto.digest own)) mine
          ∙ ap some (revoke_if_not (is_other context) at y (not_other context y is_mine)),
      IsDead-of_IsRevoked crypto settings token x.id s' t
          (subst (IsRevoked crypto token x.id) state
            (IsRevoked-of_revoke_where crypto token (is_other context) at s x keyed found other))
          later,
    )
