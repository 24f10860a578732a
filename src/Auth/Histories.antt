-- ===== src/Auth/Histories.antt =====
-- Sequences of operations on sessions, and what every operation of auth/service.py keeps of the rows.
use foundora_ai.Base.{
  ℕ, suc, ◌≤◌, ◌≡◌, ◌⊎◌, inl, inr, refl, subst, arith, String, Bool, true, false, not, Option, none,
  some, List, [], ◌∷◌, ◌++◌, ok, pure, ◌==◌, nat_eq, string_eq, ltb, find, put, Uuid, Datetime,
  text_length, Bool-cases, Option-cases, Result-cases, ok-injective,
}
use foundora_ai.Business.{OwnerSession, AuthContext, is_none}
use foundora_ai.Auth.Model.{Owner, Settings, Crypto, AuthStore}
use foundora_ai.Auth.Passwords.{normalize_email, validate_password, hash_password, verify_password}
use foundora_ai.Auth.Service.{
  revoke_where, new_session, issue, refresh_hash, sign_in, authenticate, provision, provision_owner,
  replace_password, change_password, IssuedSession,
}
use foundora_ai.Auth.Sessions.{
  ResolvedSession, is_over, is_stale, close_session, refreshed, keep_session, find_session,
  use_session, resolve_session, revoke_current, revoke_other_sessions, is_other,
}
use foundora_ai.Auth.Sound.{row_of}

-- The operations of the service, from one state to the next.
pub data Reach (crypto : Crypto) (settings : Settings) : AuthStore → AuthStore → Type 0 where
  here : (s : AuthStore) → Reach crypto settings s s
  by_provision :
      (email password : String) (replace : Bool) (s s1 s' : AuthStore) (o : Owner)
      → provision_owner crypto email password replace s ≡ ok (o, s1)
      → Reach crypto settings s1 s'
      → Reach crypto settings s s'
  by_sign_in :
      (email password : String) (user_agent : Option String) (s s1 s' : AuthStore)
      (i : IssuedSession)
      → authenticate crypto settings email password user_agent s ≡ ok (i, s1)
      → Reach crypto settings s1 s'
      → Reach crypto settings s s'
  by_use :
      (token : Option String) (s s1 s' : AuthStore) (r : Option ResolvedSession)
      → resolve_session crypto settings token s ≡ ok (r, s1)
      → Reach crypto settings s1 s'
      → Reach crypto settings s s'
  by_change :
      (context : AuthContext) (current new : String) (user_agent : Option String)
      (s s1 s' : AuthStore) (i : IssuedSession)
      → change_password crypto settings context current new user_agent s ≡ ok (i, s1)
      → Reach crypto settings s1 s'
      → Reach crypto settings s s'
  by_sign_out :
      (context : AuthContext) (s s1 s' : AuthStore)
      → revoke_current context s ≡ ok (tt, s1)
      → Reach crypto settings s1 s'
      → Reach crypto settings s s'
  by_revoking_others :
      (context : AuthContext) (s s1 s' : AuthStore) (count : ℕ)
      → revoke_other_sessions context s ≡ ok (count, s1)
      → Reach crypto settings s1 s'
      → Reach crypto settings s s'

-- What a property of the rows has to survive: nothing but ids drawn, a session issued, rows revoked, and
-- an open row that a token names closed or refreshed.
pub record IsKept (crypto : Crypto) (settings : Settings) (P : AuthStore → Type 0) : Type 0 where
  pub quiet :
      (s s' : AuthStore) → s'.sessions ≡ s.sessions → s.next_uuid ≤ s'.next_uuid → P s → P s'
  pub issued :
      (owner_id : Uuid) (user_agent : Option String) (at : Datetime) (token csrf_token : String)
      (s s' : AuthStore)
      → s'.sessions
        ≡ s.sessions
          ++ new_session crypto settings owner_id user_agent at token csrf_token s.next_uuid ∷ []
      → s'.next_uuid ≡ suc s.next_uuid
      → P s
      → P s'
  pub revoked :
      (p : OwnerSession → Bool) (at : Datetime) (s s' : AuthStore)
      → s'.sessions ≡ revoke_where p at s.sessions
      → s'.next_uuid ≡ s.next_uuid
      → P s
      → P s'
  pub written :
      (token : String) (x b : OwnerSession) (at : Datetime) (s s' : AuthStore)
      → row_of crypto token s ≡ some x
      → is_none x.revoked_at ≡ true
      → (b ≡ record x { revoked_at = some at }) ⊎ (b ≡ refreshed settings x at)
      → s'.sessions ≡ put (λ y. y.id == x.id) b s.sessions
      → s'.next_uuid ≡ s.next_uuid
      → P s
      → P s'

module _ (crypto : Crypto) (settings : Settings) (P : AuthStore → Type 0)
    (kept : IsKept crypto settings P) where
  pub issue_keeps :
      (o : Owner) (user_agent : Option String) (s s' : AuthStore) (i : IssuedSession)
      → P s
      → issue crypto settings o user_agent s ≡ ok (i, s')
      → P s'
  unfolding issue
  issue_keeps o user_agent s s' i b h =
      let (result, state) = ok-injective (issue crypto settings o user_agent s) refl h in
      subst P state (
        kept.issued o.id user_agent (s.clock s.ticks) (s.tokens s.drawn) (s.tokens (suc s.drawn)) s
          _ refl refl b)

  sign_in_keeps :
      (user_agent : Option String) (o : Option Owner) (valid : Bool) (updated : Option String)
      (s s' : AuthStore) (i : IssuedSession)
      → P s
      → sign_in crypto settings user_agent o (valid, updated) s ≡ ok (i, s')
      → P s'
  unfolding sign_in refresh_hash
  sign_in_keeps user_agent none valid updated s s' i b h = absurd (ground arith)
  sign_in_keeps user_agent (some o) false updated s s' i b h = absurd (ground arith)
  sign_in_keeps user_agent (some o) true none s s' i b h = issue_keeps o user_agent s s' i b h
  sign_in_keeps user_agent (some o) true (some u) s s' i b h =
      issue_keeps _ user_agent _ s' i (kept.quiet s _ refl (omega arith) b) h

  authenticate_keeps :
      (email password : String) (user_agent : Option String) (s s' : AuthStore) (i : IssuedSession)
      → P s
      → authenticate crypto settings email password user_agent s ≡ ok (i, s')
      → P s'
  unfolding authenticate
  authenticate_keeps email password user_agent s s' i b h =
      sign_in_keeps user_agent _ _ _ s s' i b h

  pub change_password_keeps :
      (context : AuthContext) (current new : String) (user_agent : Option String) (s s' : AuthStore)
      (i : IssuedSession)
      → P s
      → change_password crypto settings context current new user_agent s ≡ ok (i, s')
      → P s'
  unfolding change_password replace_password
  change_password_keeps context current new user_agent s s' i b h =
      elim (Result-cases (validate_password new)) [
        | inr (e, bad) ↦ absurd (ground arith)
        | inl (v, valid) ↦
            elim (Option-cases (find (λ (o : Owner). o.id == context.owner_id) s.owners)) [
              | inl missing ↦ absurd (ground arith)
              | inr (o, known) ↦
                  elim (Bool-cases
                    (not (verify_password crypto current (some o.password_hash)).0)) [
                      | inl wrong ↦ absurd (ground arith)
                      | inr right ↦ elim (Result-cases (hash_password crypto new)) [
                        | inr (e, bad) ↦ absurd (ground arith)
                        | inl (encoded, good) ↦
                            issue_keeps _ user_agent _ s' i
                              (kept.revoked (λ x. x.owner_id == o.id) (s.clock s.ticks) s _ refl
                                refl b)
                              (rw good at (rw right at (rw known at (rw valid at h))))
                      ]
                    ]
            ]
      ]

  provision_keeps :
      (email encoded : String) (at : Datetime) (replace : Bool) (owners : List Owner)
      (s s' : AuthStore) (o : Owner)
      → P s
      → provision email encoded at replace owners s ≡ ok (o, s')
      → P s'
  unfolding provision
  provision_keeps email encoded at replace [] s s' o b h =
      let (result, state) = ok-injective (provision email encoded at replace [] s) refl h in
      subst P state (kept.quiet s _ refl (omega arith) b)
  provision_keeps email encoded at false (x ∷ xs) s s' o b h = absurd (ground arith)
  provision_keeps email encoded at true (x ∷ xs) s s' o b h =
      let (result, state) = ok-injective (provision email encoded at true (x ∷ xs) s) refl h in
      subst P state (kept.revoked (λ y. y.owner_id == x.id) at s _ refl refl b)

  provision_owner_keeps :
      (email password : String) (replace : Bool) (s s' : AuthStore) (o : Owner)
      → P s
      → provision_owner crypto email password replace s ≡ ok (o, s')
      → P s'
  unfolding provision_owner
  provision_owner_keeps email password replace s s' o b h =
      elim (Result-cases (normalize_email crypto email)) [
        | inr (e, bad) ↦ absurd (ground arith)
        | inl (address, known) ↦ elim (Result-cases (hash_password crypto password)) [
          | inr (e, bad) ↦ absurd (ground arith)
          | inl (encoded, good) ↦
              provision_keeps address encoded (s.clock s.ticks) replace s.owners
                (record s { ticks = suc s.ticks }) s' o (kept.quiet s _ refl (omega arith) b)
                (rw good at (rw known at h))
        ]
      ]

  use_session_keeps :
      (token : String) (x : OwnerSession) (o : Owner) (at : Datetime) (s s' : AuthStore)
      (r : Option ResolvedSession)
      → row_of crypto token s ≡ some x
      → P s
      → use_session settings (some (x, o)) at s ≡ ok (r, s')
      → P s'
  unfolding use_session close_session keep_session is_over
  use_session_keeps token x o at s s' r found b h = elim (Bool-cases (is_over x at)) [
    | inl over ↦ elim (Bool-cases (is_none x.revoked_at)) [
      | inl live ↦
          let closed : OwnerSession = record x { revoked_at = some at } in
          let (result, state) =
            ok-injective
              (pure none (record s { sessions = put (λ y. y.id == x.id) closed s.sessions })) refl
              (rw live at (rw over at h)) in
          subst P state (kept.written token x closed at s _ found live (inl refl) refl refl b)
      | inr revoked ↦
          let (result, state) = ok-injective (pure none s) refl (rw revoked at (rw over at h)) in
          subst P state b
    ]
    | inr current ↦ elim (Bool-cases (is_stale settings x at)) [
      | inl stale ↦
          let fresh : OwnerSession = refreshed settings x at in
          let (result, state) =
            ok-injective
              (pure (some (record { owner = o; session = fresh }))
                (record s { sessions = put (λ y. y.id == x.id) fresh s.sessions }))
              refl (rw stale at (rw current at h)) in
          subst P state
            (kept.written token x fresh at s _ found (ground arith) (inr refl) refl refl b)
      | inr young ↦
          let (result, state) =
            ok-injective (pure (some (record { owner = o; session = x })) s) refl
              (rw young at (rw current at h)) in
          subst P state b
    ]
  ]

  pub resolve_session_keeps :
      (token : Option String) (s s' : AuthStore) (r : Option ResolvedSession)
      → P s
      → resolve_session crypto settings token s ≡ ok (r, s')
      → P s'
  unfolding resolve_session find_session use_session
  resolve_session_keeps none s s' r b h =
      let (result, state) = ok-injective (pure none s) refl h in subst P state b
  resolve_session_keeps (some token) s s' r b h =
      let read : P (record s { ticks = suc s.ticks }) = kept.quiet s _ refl (omega arith) b in
      elim (Bool-cases (ltb 256 (text_length token))) [
        | inl long ↦
            let (result, state) = ok-injective (pure none s) refl (rw long at h) in subst P state b
        | inr short ↦ elim (Option-cases (row_of crypto token s)) [
          | inl missing ↦
              let (result, state) =
                ok-injective (pure none (record s { ticks = suc s.ticks })) refl
                  (rw (short, missing) at h) in
              subst P state read
          | inr (x, found) ↦
              elim (Option-cases (find (λ (o : Owner). o.id == x.owner_id) s.owners)) [
                | inl missing ↦
                    let (result, state) =
                      ok-injective (pure none (record s { ticks = suc s.ticks })) refl
                        (rw (short, found, missing) at h) in
                    subst P state read
                | inr (o, owned) ↦
                    use_session_keeps token x o (s.clock s.ticks) (record s { ticks = suc s.ticks })
                      s' r found read (rw (short, found, owned) at h)
              ]
        ]
      ]

  pub revoke_other_sessions_keeps :
      (context : AuthContext) (s s' : AuthStore) (count : ℕ)
      → P s
      → revoke_other_sessions context s ≡ ok (count, s')
      → P s'
  unfolding revoke_other_sessions
  revoke_other_sessions_keeps context s s' count b h =
      let (result, state) = ok-injective (revoke_other_sessions context s) refl h in
      subst P state (kept.revoked (is_other context) (s.clock s.ticks) s _ refl refl b)

  revoke_current_keeps :
      (context : AuthContext) (s s' : AuthStore)
      → P s
      → revoke_current context s ≡ ok (tt, s')
      → P s'
  unfolding revoke_current
  revoke_current_keeps context s s' b h =
      let (result, state) = ok-injective (revoke_current context s) refl h in
      subst P state
        (kept.revoked (λ x. x.id == context.session_id) (s.clock s.ticks) s _ refl refl b)

  pub reached : (s s' : AuthStore) → P s → Reach crypto settings s s' → P s'
  reached s _ b (here _) = b
  reached s s' b (by_provision email password replace _ s1 _ o step rest) =
      reached s1 s' (provision_owner_keeps email password replace s s1 o b step) rest
  reached s s' b (by_sign_in email password user_agent _ s1 _ i step rest) =
      reached s1 s' (authenticate_keeps email password user_agent s s1 i b step) rest
  reached s s' b (by_use token _ s1 _ r step rest) =
      reached s1 s' (resolve_session_keeps token s s1 r b step) rest
  reached s s' b (by_change context current new user_agent _ s1 _ i step rest) =
      reached s1 s' (change_password_keeps context current new user_agent s s1 i b step) rest
  reached s s' b (by_sign_out context _ s1 _ step rest) =
      reached s1 s' (revoke_current_keeps context s s1 b step) rest
  reached s s' b (by_revoking_others context _ s1 _ count step rest) =
      reached s1 s' (revoke_other_sessions_keeps context s s1 count b step) rest
