-- ===== src/Memory/Lasting/Proposals.antt =====
-- A proposal that is decided stays decided, whatever the service does afterwards.
use foundora_ai.Base.{
  ◌≤◌, ◌≡◌, inl, inr, refl, sym, ap, subst, ◌∙◌, arith, false, ◌&&◌, List, [], ◌∷◌, ◌++◌, ok, pure,
  put, ◌==◌, nat_eq, string_eq, Uuid, Bool-cases, Result-cases, ok-injective, IsClosed, apart,
  IsClosed-later, IsClosed-insert, IsClosed-put,
}
use foundora_ai.Business.{AuthContext}
use foundora_ai.Events.Contracts.{EventConsumer}
use foundora_ai.Memory.Model.{MemoryStore, MemoryProposal, Route, automatic}
use foundora_ai.Memory.Text.{Libraries}
use foundora_ai.Memory.Session.{publish}
use foundora_ai.Memory.Accept.{is_automatic, resolved_proposal}
use foundora_ai.Memory.Accept.Written.{
  publish-Unchanged, announce-Unchanged, Accepted, accept_locked-Accepted,
}
use foundora_ai.Memory.Propose.{
  NewMemory, new_proposal, accept_if_automatic, insert_proposal, proposal_request, propose,
}
use foundora_ai.Memory.Decide.{is_pending, write_invalidation}
use foundora_ai.Memory.Constraints.Kept.{check_arguments-Unchanged}
use foundora_ai.Memory.Runs.{Decision-of_decide, Invalidation-of_invalidate, Proposal-of_propose}
use foundora_ai.Memory.Settled.{Settled-of_settle}
use foundora_ai.Memory.Histories.{IsKept}
use foundora_ai.Memory.Lasting.{update_policy_keeps, no_less}

module _ (id business_id : Uuid) where
  -- The proposal of the id is the business's, and no longer pending.
  abbrev pub IsDecided : MemoryStore → Type 0
  IsDecided s =
      IsClosed (λ (p : MemoryProposal). p.id) (λ p. is_pending p.status)
        (λ p. p.id == id && p.business_id == business_id) id s.proposals s.outbox.next_uuid

  other_id : (k b : Uuid) → ¬ (k ≡ id) → (k == id && b == business_id) ≡ false
  other_id k b n = ground arith

  quiet :
      (s s' : MemoryStore)
      → s'.proposals ≡ s.proposals
      → s.outbox.next_uuid ≤ s'.outbox.next_uuid
      → IsDecided s
      → IsDecided s'
  quiet s s' e le c =
      IsClosed-later _ _ _ _ s.proposals s'.proposals s.outbox.next_uuid s'.outbox.next_uuid e le c

  written :
      (s s' : MemoryStore) (k : Uuid) (x : MemoryProposal)
      → ¬ (k ≡ id)
      → x.id ≡ k
      → s'.proposals ≡ put (λ y. y.id == k) x s.proposals
      → s.outbox.next_uuid ≤ s'.outbox.next_uuid
      → IsDecided s
      → IsDecided s'
  written s s' k x n same e le c =
      let m : ¬ (x.id ≡ id) = λ eq. n (sym same ∙ eq) in
      IsClosed-put _ _ _ _ s.proposals s'.proposals x s.outbox.next_uuid s'.outbox.next_uuid
        (e ∙ ap (λ i. put (λ (y : MemoryProposal). y.id == i) x s.proposals) (sym same)) m
        (other_id x.id x.business_id m) le c

  accepted :
      (p : MemoryProposal) (route : Route) (context : AuthContext) (s s' : MemoryStore)
      (x : MemoryProposal)
      → ¬ (p.id ≡ id)
      → Accepted p route context s s' x
      → IsDecided s
      → IsDecided s'
  unfolding resolved_proposal
  accepted p route context s s' x n a c =
      written s s' p.id x n (ap (λ (y : MemoryProposal). y.id) a.result) a.proposals a.later c

  inserted :
      (lib : Libraries) (consumers : List EventConsumer) (context : AuthContext)
      (p : MemoryProposal) (s s' : MemoryStore) (x : MemoryProposal)
      → ¬ (p.id ≡ id)
      → IsDecided s
      → insert_proposal lib consumers context p s ≡ ok (x, s')
      → IsDecided s'
  unfolding insert_proposal accept_if_automatic
  inserted lib consumers context p s s' x new c h =
      let s0 : MemoryStore = record s { proposals = s.proposals ++ p ∷ [] } in
      let c0 : IsDecided s0 =
        IsClosed-insert _ _ _ _ s.proposals s0.proposals p s.outbox.next_uuid s0.outbox.next_uuid
          refl new (omega arith) c in
      elim (Result-cases (publish lib consumers (proposal_request lib p) s0)) [
        | inr (e, bad) ↦ absurd (ground arith)
        | inl ((u, s1), good) ↦
            let same = publish-Unchanged lib consumers (proposal_request lib p) s0 s1 good in
            let c1 = quiet s0 s1 same.proposals same.later c0 in
            elim (Bool-cases (is_automatic p.acceptance_route)) [
              | inr f ↦
                  let (result, state) = ok-injective (pure p s1) refl (rw f at (rw good at h)) in
                  subst IsDecided state c1
              | inl t ↦
                  accepted p automatic context s1 s' x new
                    (accept_locked-Accepted lib consumers context p automatic s1 s' x
                      (rw t at (rw good at h)))
                    c1
            ]
      ]

  proposed :
      (lib : Libraries) (consumers : List EventConsumer) (context : AuthContext) (n : NewMemory)
      (s s' : MemoryStore) (x : MemoryProposal)
      → IsDecided s
      → propose lib consumers context n s ≡ ok (x, s')
      → IsDecided s'
  unfolding new_proposal
  proposed lib consumers context n s s' x c h =
      let d = Proposal-of_propose lib consumers context n s s' x h in
      let v = check_arguments-Unchanged lib n d.checked s d.middle d.arguments in
      let c1 = quiet s d.middle v.proposals v.later c in
      let old = c1.old in
      let drawn : d.middle.outbox.next_uuid ≤ d.state.outbox.next_uuid =
        subst (λ (w : MemoryStore). d.middle.outbox.next_uuid ≤ w.outbox.next_uuid) (sym d.state_is)
          (omega arith) in
      let c2 : IsDecided d.state =
        quiet d.middle d.state (ap (λ (w : MemoryStore). w.proposals) d.state_is) drawn c1 in
      inserted lib consumers context _ d.state s' x (λ e. omega (arith, d.id_is)) c2 d.inserted

  pub IsDecided-IsKept :
      (lib : Libraries) (consumers : List EventConsumer) → IsKept lib consumers IsDecided
  unfolding write_invalidation
  IsDecided-IsKept lib consumers = record {
    over_policy = λ context types minimum expected s s' x c h.
        let k = update_policy_keeps context types minimum expected s s' x h in
        quiet s s' k.0 (no_less s s' k.2) c;
    over_proposal = proposed lib consumers;
    over_decision = λ context other expected accept reason s s' x c h.
        let d = Decision-of_decide lib consumers context other expected accept reason s s' x h in
        let w =
          (Settled-of_settle lib consumers context d.proposal expected accept d.normalized s s' x
            d.settled).1 in
        let n =
          apart (λ (p : MemoryProposal). p.id) (λ p. is_pending p.status)
            (λ p. p.id == id && p.business_id == business_id) id _ s.proposals s.outbox.next_uuid
            d.proposal c d.found w.was_pending in
        written s s' d.proposal.id x n w.same_id w.proposals w.later c;
    over_invalidation = λ context other expected reason s s' x c h.
        let d = Invalidation-of_invalidate lib consumers context other expected reason s s' x h in
        let (result, u) = announce-Unchanged lib consumers _ _ x _ s' d.written in
        quiet s s' u.proposals u.later c;
  }
