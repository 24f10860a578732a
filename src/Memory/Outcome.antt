-- ===== src/Memory/Outcome.antt =====
-- When a proposal is accepted without the founder, and the invalidation of a record
-- (memory/service.py).
use foundora_ai.Base.{
  ◌≡◌, ◌≢◌, ◌⊎◌, inl, inr, refl, sym, ap, subst, ◌∙◌, arith, String, true, false, ◌&&◌, ◌==◌,
  nat_eq, string_eq, contains, some, List, [], ◌∷◌, ◌++◌, ok, pure, Result-cases, Bool-cases,
  Option-cases, ok-injective, eq_self,
}
use foundora_ai.Business.{AuthContext, Business, resolve_selected_business}
use foundora_ai.Events.Contracts.{EventConsumer}
use foundora_ai.Memory.Model.{
  at_most, MemoryStore, MemoryProposal, MemoryPolicy, pending, Route, founder, automatic,
}
use foundora_ai.Memory.Text.{Libraries, automatic_eligible_types, verifiable_source_kinds}
use foundora_ai.Memory.Session.{publish}
use foundora_ai.Memory.Policy.{policy_for}
use foundora_ai.Memory.Accept.{resolved_proposal, is_automatic}
use foundora_ai.Memory.Accept.Written.{publish-Unchanged, accept_locked-Accepted}
use foundora_ai.Memory.Propose.{
  NewMemory, route_by, new_proposal, accept_if_automatic, insert_proposal, proposal_request,
  propose,
}
use foundora_ai.Memory.Decide.{is_pending}
use foundora_ai.Memory.Sources.{ResolvedSource}
use foundora_ai.Memory.Constraints.Kept.{check_arguments-Unchanged}
use foundora_ai.Memory.Runs.{Proposal-of_propose}
use foundora_ai.Memory.Settled.{not_pending}

-- What the end of a proposal leaves: the row waits and nothing is accepted, or it was accepted on the
-- automatic route.
record Ended (p : MemoryProposal) (s s' : MemoryStore) (x : MemoryProposal) : Type 0 where
  outcome :
      ((x ≡ p) × (s'.records ≡ s.records) × (s'.revisions ≡ s.revisions))
      ⊎ ((p.acceptance_route ≡ automatic)
          × (p.epistemic_status ≢ "fact")
          × (x.source_kind ≡ p.source_kind)
          × (is_pending x.status ≡ false))

Ended-of_accept :
    (lib : Libraries) (consumers : List EventConsumer) (context : AuthContext) (p : MemoryProposal)
    (s s' : MemoryStore) (x : MemoryProposal)
    → accept_if_automatic lib consumers context p s ≡ ok (x, s')
    → Ended p s s' x
unfolding accept_if_automatic resolved_proposal
Ended-of_accept lib consumers context p s s' x h =
    elim (Bool-cases (is_automatic p.acceptance_route)) [
      | inr f ↦
          let (result, state) = ok-injective (pure p s) refl (rw f at h) in
          record {
            outcome = inl (
              sym result,
              ap (λ (w : MemoryStore). w.records) (sym state),
              ap (λ (w : MemoryStore). w.revisions) (sym state),
            );
          }
      | inl t ↦
          let a = accept_locked-Accepted lib consumers context p automatic s s' x (rw t at h) in
          record {
            outcome = inr (
              route_is p.acceptance_route t,
              no_fact p.epistemic_status a.allowed,
              ap (λ (y : MemoryProposal). y.source_kind) a.result,
              ap (λ (y : MemoryProposal). is_pending y.status) a.result ∙ not_pending a.change,
            );
          }
    ]
  where
    route_is : (r : Route) → is_automatic r ≡ true → r ≡ automatic
    route_is automatic e = refl
    route_is founder e = absurd (ground arith)

    no_fact : (status : String) → (status == "fact" && true) ≡ false → status ≢ "fact"
    no_fact status e same = ground (arith, eq_self status)

Ended-of_insert :
    (lib : Libraries) (consumers : List EventConsumer) (context : AuthContext) (p : MemoryProposal)
    (s s' : MemoryStore) (x : MemoryProposal)
    → insert_proposal lib consumers context p s ≡ ok (x, s')
    → Ended p s s' x
unfolding insert_proposal
Ended-of_insert lib consumers context p s s' x h =
    let s0 : MemoryStore = record s { proposals = s.proposals ++ p ∷ [] } in
    elim (Result-cases (publish lib consumers (proposal_request lib p) s0)) [
      | inr (e, bad) ↦ absurd (ground arith)
      | inl ((u, s1), good) ↦
          let same = publish-Unchanged lib consumers (proposal_request lib p) s0 s1 good in
          let ended = Ended-of_accept lib consumers context p s1 s' x (rw good at h) in
          record {
            outcome = elim ended.outcome [
              | inl (result, records, revisions) ↦
                  inl (result, records ∙ same.records, revisions ∙ same.revisions)
              | inr found ↦ inr found
            ];
          }
    ]

-- What the policy asks for an automatic acceptance.
pub record Permitted (policies : List MemoryPolicy) (b : Business) (n : NewMemory) (kind : String)
    : Type 0 where
  pub policy : MemoryPolicy
  pub of_business : policy_for b.id policies ≡ some policy
  pub type_accepted : contains policy.automatic_accept_types n.memory_type ≡ true
  pub type_eligible : contains automatic_eligible_types n.memory_type ≡ true
  pub confident : at_most policy.minimum_confidence n.confidence ≡ true
  pub verifiable : contains verifiable_source_kinds kind ≡ true

Permitted-of_route :
    (policies : List MemoryPolicy) (b : Business) (n : NewMemory) (source : ResolvedSource)
    → route_by (policy_for b.id policies) n source ≡ automatic
    → Permitted policies b n source.kind
unfolding route_by
Permitted-of_route policies b n source h = elim (Option-cases (policy_for b.id policies)) [
  | inl missing ↦ absurd (ground arith)
  | inr (p, found) ↦ record {
    policy = p;
    of_business = found;
    type_accepted = ground arith;
    type_eligible = ground arith;
    confident = ground arith;
    verifiable = ground arith;
  }
]

-- A proposal that succeeds either waits for the founder, with no record and no revision written, or
-- was accepted at once. At once only if the business has a policy that lists its type, the type is one
-- of the four eligible ones, its confidence reaches the policy's minimum, its source is one the system
-- can verify, and it is no fact.
pub propose_automatic :
    (lib : Libraries) (consumers : List EventConsumer) (context : AuthContext) (n : NewMemory)
    (s s' : MemoryStore) (x : MemoryProposal) (b : Business)
    → resolve_selected_business s.directory context ≡ some b
    → propose lib consumers context n s ≡ ok (x, s')
    → ((x.status ≡ pending) × (s'.records ≡ s.records) × (s'.revisions ≡ s.revisions))
      ⊎ ((is_pending x.status ≡ false)
          × (n.epistemic_status ≢ "fact")
          × Permitted s.policies b n x.source_kind)
unfolding new_proposal
propose_automatic lib consumers context n s s' x b known h =
    let d = Proposal-of_propose lib consumers context n s s' x h in
    let v = check_arguments-Unchanged lib n d.checked s d.middle d.arguments in
    let ended = Ended-of_insert lib consumers context _ d.state s' x d.inserted in
    let same : b ≡ d.business =
      some-injective
        (sym known ∙ ap (λ y. resolve_selected_business y context) (sym v.directory) ∙ d.known) in
    elim ended.outcome [
      | inl (result, records, revisions) ↦ inl (
        ap (λ (y : MemoryProposal). y.status) result,
        records ∙ ap (λ (w : MemoryStore). w.records) d.state_is ∙ v.records,
        revisions ∙ ap (λ (w : MemoryStore). w.revisions) d.state_is ∙ v.revisions,
      )
      | inr (route, no_fact, kind, decided) ↦ inr (
        decided,
        no_fact,
        subst (λ k. Permitted s.policies b n k) (sym kind)
            (subst (λ (y : Business). Permitted s.policies y n d.source.kind) (sym same)
              (subst (λ ps. Permitted ps d.business n d.source.kind) v.policies
                (Permitted-of_route d.middle.policies d.business n d.source route))),
      )
    ]
  where
    some-injective : {A : Type 0} {a c : A} → some a ≡ some c → a ≡ c
    some-injective e = cc
