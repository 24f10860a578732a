-- ===== src/Auth/Bounds/Reach.antt =====
-- Sequences of operations on sessions keep their expiries bounded.
use foundora_ai.Base.{
  inl, inr, sym, subst, All, All-append, All-put, All-find, ◌==◌, nat_eq, string_eq,
}
use foundora_ai.Auth.Model.{Settings, Crypto, AuthStore}
use foundora_ai.Auth.Histories.{Reach, IsKept, reached}
use foundora_ai.Auth.Bounds.{
  IsBounded, AreBounded, IsBounded-new_session, IsBounded-refreshed, IsBounded-revoke_where,
}

AreBounded-IsKept :
    (crypto : Crypto) (settings : Settings) → IsKept crypto settings (AreBounded settings)
unfolding AreBounded
AreBounded-IsKept crypto settings = record {
  quiet = λ s s' e le b. subst (All (IsBounded settings)) (sym e) b;
  issued = λ owner_id user_agent at token csrf_token s s' e next b.
      subst (All (IsBounded settings)) (sym e) (
        All-append (IsBounded settings) s.sessions _ b (
          IsBounded-new_session crypto settings owner_id user_agent at token csrf_token s.next_uuid,
          tt,
        ));
  revoked = λ p at s s' e next b.
      subst (All (IsBounded settings)) (sym e) (IsBounded-revoke_where settings p at s.sessions b);
  written = λ token x b at s s' found live change e next bounded.
      let bx : IsBounded settings x = All-find (IsBounded settings) _ s.sessions x bounded found in
      let bb : IsBounded settings b = elim change [
        | inl closed ↦
            subst (IsBounded settings) (sym closed) (record { idle = bx.idle; life = bx.life })
        | inr fresh ↦ subst (IsBounded settings) (sym fresh) (IsBounded-refreshed settings x at bx)
      ] in
      subst (All (IsBounded settings)) (sym e)
        (All-put (IsBounded settings) (λ y. y.id == x.id) b s.sessions bb bounded);
}

-- Any sequence of provisionings, sign-ins, uses of a token, changes of the password and revocations that
-- succeed, begun where every session is bounded, ends where every session is: its idle expiry is at most
-- its absolute expiry, however often it was refreshed, and that is at most the configured time after
-- its creation.
pub sessions-AreBounded :
    (crypto : Crypto) (settings : Settings) (s s' : AuthStore)
    → AreBounded settings s
    → Reach crypto settings s s'
    → AreBounded settings s'
sessions-AreBounded crypto settings s s' b r =
    reached crypto settings (AreBounded settings) (AreBounded-IsKept crypto settings) s s' b r
