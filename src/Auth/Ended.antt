-- ===== src/Auth/Ended.antt =====
-- A session that is over gives nothing again (auth/service.py).
use foundora_ai.Base.{
  suc, ◌≡◌, inl, inr, refl, sym, subst, String, true, Option, none, some, ok, pure, ◌==◌, nat_eq,
  string_eq, ltb, find, put, text_length, Bool-cases, ok-injective,
}
use foundora_ai.Business.{OwnerSession, is_none}
use foundora_ai.Auth.Model.{Owner, Settings, Crypto, AuthStore}
use foundora_ai.Auth.Sessions.{
  ResolvedSession, is_over, close_session, find_session, use_session, resolve_session,
}
use foundora_ai.Auth.Sound.{row_of}
use foundora_ai.Auth.Dead.{IsDead, IsDead-of_long}
use foundora_ai.Auth.Histories.{Reach}
use foundora_ai.Auth.Lasting.{
  IsKeyed, IsRevoked, IsDead-of_IsRevoked, IsRevoked-of_row, IsRevoked-of_put,
}

-- A token whose session is over at the reading of the clock, and whose owner is there, gives none. Nor
-- does it in any state that the service reaches afterwards by provisionings, sign-ins, uses of tokens,
-- changes of the password and revocations, whatever the clock shows there. Before the use the ids of the
-- sessions are distinct and lie below the next one.
pub resolve_session-IsDead :
    (crypto : Crypto) (settings : Settings) (token : String) (s s' t : AuthStore) (x : OwnerSession)
    (o : Owner) (r : Option ResolvedSession)
    → IsKeyed s
    → row_of crypto token s ≡ some x
    → find (λ (y : Owner). y.id == x.owner_id) s.owners ≡ some o
    → is_over x (s.clock s.ticks) ≡ true
    → resolve_session crypto settings (some token) s ≡ ok (r, s')
    → Reach crypto settings s' t
    → (r ≡ none) × IsDead crypto settings token t
unfolding resolve_session use_session find_session close_session
resolve_session-IsDead crypto settings token s s' t x o r keyed found owned over h later =
    elim (Bool-cases (ltb 256 (text_length token))) [
      | inl long ↦
          let (result, state) = ok-injective (pure none s) refl (rw long at h) in
          (sym result, IsDead-of_long crypto settings token t long)
      | inr short ↦ elim (Bool-cases (is_none x.revoked_at)) [
        | inr revoked ↦
            let (result, state) =
              ok-injective (pure none (record s { ticks = suc s.ticks })) refl
                (rw revoked at (rw (short, found, owned, over) at h)) in
            (
              sym result,
              IsDead-of_IsRevoked crypto settings token x.id s' t
                  (subst (IsRevoked crypto token x.id) state
                    (IsRevoked-of_row crypto token s x keyed found revoked))
                  later,
            )
        | inl live ↦
            let closed : OwnerSession = record x { revoked_at = some (s.clock s.ticks) } in
            let after : AuthStore = record s {
              sessions = put (λ y. y.id == x.id) closed s.sessions;
              ticks = suc s.ticks;
            } in
            let (result, state) =
              ok-injective (pure none after) refl
                (rw live at (rw (short, found, owned, over) at h)) in
            (
              sym result,
              IsDead-of_IsRevoked crypto settings token x.id s' t
                  (subst (IsRevoked crypto token x.id) state
                    (IsRevoked-of_put crypto token s x (s.clock s.ticks) keyed found))
                  later,
            )
      ]
    ]
