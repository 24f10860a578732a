-- ===== src/Memory/Constraints/Operations.antt =====
-- Each operation of memory/service.py keeps the rows well formed.
use foundora_ai.Base.{
  ℕ, suc, ◌≡◌, inl, inr, refl, sym, subst, String, Bool, true, false, ◌&&◌, not, ◌!=◌, nat_eq,
  string_eq, all, contains, Option, none, some, List, ok, arith, Uuid, Bool-cases, Option-cases,
  ok-injective, All-append, All-put, All-find,
}
use foundora_ai.Business.{AuthContext, resolve_selected_business}
use foundora_ai.Events.Contracts.{EventConsumer}
use foundora_ai.Memory.Model.{
  MemoryStore, MemoryProposal, MemoryRecord, MemoryPolicy, Route, Confidence, out_of_range,
}
use foundora_ai.Memory.Text.{Libraries, automatic_eligible_types}
use foundora_ai.Memory.Session.{selected_business}
use foundora_ai.Memory.Sources.{ResolvedSource}
use foundora_ai.Memory.Policy.{
  new_policy, updated_policy, insert_policy, write_policy, save_policy, policy_for, update_policy,
  sorted_set,
}
use foundora_ai.Memory.Propose.{NewMemory, Checked, new_proposal, propose}
use foundora_ai.Memory.Decide.{decide_proposal, invalidate}
use foundora_ai.Memory.Constraints.{
  is_source_kind, is_identified, proposal_checks, record_checks, policy_checks,
}
use foundora_ai.Memory.Constraints.Arguments.{resolve_source-is_identified}
use foundora_ai.Memory.Constraints.Rows.{new_policy-checks, updated_policy-checks}
use foundora_ai.Memory.Runs.{Decision-of_decide, Invalidation-of_invalidate, Proposal-of_propose}
use foundora_ai.Memory.Constraints.Kept.{
  IsWellFormed, IsWellFormed-of_Unchanged, insert_proposal-IsWellFormed, Valid,
  check_arguments-Valid, settle_proposal-IsWellFormed, write_invalidation-IsWellFormed,
}

pub decide_proposal-IsWellFormed :
    (lib : Libraries) (consumers : List EventConsumer) (context : AuthContext) (id : Uuid)
    (expected : ℕ) (accept : Bool) (reason : String) (s s' : MemoryStore) (x : MemoryProposal)
    → IsWellFormed s
    → decide_proposal lib consumers context id expected accept reason s ≡ ok (x, s')
    → IsWellFormed s'
decide_proposal-IsWellFormed lib consumers context id expected accept reason s s' x w h =
    let d = Decision-of_decide lib consumers context id expected accept reason s s' x h in
    settle_proposal-IsWellFormed lib consumers context d.proposal expected accept d.normalized s s'
      x (All-find (λ p. proposal_checks p ≡ true) _ s.proposals d.proposal w.proposals d.found) w
      d.settled

pub invalidate-IsWellFormed :
    (lib : Libraries) (consumers : List EventConsumer) (context : AuthContext) (id : Uuid)
    (expected : ℕ) (reason : String) (s s' : MemoryStore) (x : MemoryRecord)
    → IsWellFormed s
    → invalidate lib consumers context id expected reason s ≡ ok (x, s')
    → IsWellFormed s'
invalidate-IsWellFormed lib consumers context id expected reason s s' x w h =
    let d = Invalidation-of_invalidate lib consumers context id expected reason s s' x h in
    write_invalidation-IsWellFormed lib consumers d.entry d.normalized s s' x
      (All-find (λ r. record_checks r ≡ true) _ s.records d.entry w.records d.found) w d.written

save_policy-IsWellFormed :
    (context : AuthContext) (business_id : Uuid) (o : Option MemoryPolicy) (types : List String)
    (minimum : Confidence) (expected : ℕ) (s s' : MemoryStore) (x : MemoryPolicy)
    → out_of_range minimum ≡ false
    → IsWellFormed s
    → save_policy context business_id o types minimum expected s ≡ ok (x, s')
    → IsWellFormed s'
unfolding save_policy insert_policy write_policy
save_policy-IsWellFormed context business_id none types minimum expected s s' x bounded w h =
    elim (Bool-cases (expected != 0)) [
      | inl t ↦ absurd (ground arith)
      | inr f ↦
          let (result, state) =
            ok-injective
              (insert_policy
                (new_policy business_id types minimum context.owner_id (s.clock s.ticks))
                (record s { ticks = suc s.ticks }))
              refl (rw f at h) in
          subst IsWellFormed state (record {
            policies =
                All-append (λ p. policy_checks p ≡ true) s.policies _ w.policies
                  (
                    new_policy-checks business_id types minimum context.owner_id (s.clock s.ticks)
                        bounded,
                    tt,
                  );
            proposals = w.proposals;
            records = w.records;
            revisions = w.revisions;
          })
    ]
save_policy-IsWellFormed context business_id (some p) types minimum expected s s' x bounded w h =
    elim (Bool-cases (p.revision != expected)) [
      | inl t ↦ absurd (ground arith)
      | inr f ↦
          let (result, state) =
            ok-injective
              (write_policy (updated_policy p types minimum context.owner_id (s.clock s.ticks))
                (record s { ticks = suc s.ticks }))
              refl (rw f at h) in
          subst IsWellFormed state (record {
            policies =
                All-put (λ p. policy_checks p ≡ true) _ _ s.policies
                  (updated_policy-checks p types minimum context.owner_id (s.clock s.ticks) bounded)
                  w.policies;
            proposals = w.proposals;
            records = w.records;
            revisions = w.revisions;
          })
    ]

pub update_policy-IsWellFormed :
    (context : AuthContext) (types : List String) (minimum : Confidence) (expected : ℕ)
    (s s' : MemoryStore) (x : MemoryPolicy)
    → IsWellFormed s
    → update_policy context types minimum expected s ≡ ok (x, s')
    → IsWellFormed s'
unfolding update_policy selected_business
update_policy-IsWellFormed context types minimum expected s s' x w h =
    elim (Bool-cases (out_of_range minimum)) [
      | inl t ↦ absurd (ground arith)
      | inr bounded ↦
          elim (Bool-cases (not (all (contains automatic_eligible_types) (sorted_set types)))) [
            | inl t ↦ absurd (ground arith)
            | inr eligible ↦ elim (Option-cases (resolve_selected_business s.directory context)) [
              | inl unknown ↦ absurd (ground arith)
              | inr (b, known) ↦
                  save_policy-IsWellFormed context b.id (policy_for b.id s.policies)
                    (sorted_set types) minimum expected s s' x bounded w
                    (rw (bounded, eligible, known) at h)
            ]
          ]
    ]

-- The row of a proposal satisfies its constraints when its arguments and its source were checked.
new_proposal-checks :
    (lib : Libraries) (business_id : Uuid) (context : AuthContext) (n : NewMemory) (c : Checked)
    (source : ResolvedSource) (route : Route) (id : Uuid) (s s' : MemoryStore)
    → Valid n c s s'
    → is_source_kind source.kind ≡ true
    → is_identified source.kind source.source_id ≡ true
    → proposal_checks (new_proposal lib business_id context n c source route id) ≡ true
unfolding proposal_checks new_proposal
new_proposal-checks lib business_id context n c source route id s s' v kind identified =
    all_of _ _ _ _ _ _ v.pair v.scope v.execution kind identified v.confidence
  where
    all_of :
        (a b c d e f : Bool)
        → a ≡ true
        → b ≡ true
        → c ≡ true
        → d ≡ true
        → e ≡ true
        → f ≡ true
        → (a && (b && (c && (d && (e && (f && true)))))) ≡ true
    all_of a b c d e f ha hb hc hd he hf = ground arith

pub propose-IsWellFormed :
    (lib : Libraries) (consumers : List EventConsumer) (context : AuthContext) (n : NewMemory)
    (s s' : MemoryStore) (x : MemoryProposal)
    → IsWellFormed s
    → propose lib consumers context n s ≡ ok (x, s')
    → IsWellFormed s'
propose-IsWellFormed lib consumers context n s s' x w h =
    let d = Proposal-of_propose lib consumers context n s s' x h in
    let v = check_arguments-Valid lib n d.checked s d.middle d.arguments in
    let (kind, identified) =
      resolve_source-is_identified lib d.middle d.business.id n.source d.source d.resolved in
    let w1 = IsWellFormed-of_Unchanged s d.middle v.unchanged w in
    insert_proposal-IsWellFormed lib consumers context _ d.state s' x
      (new_proposal-checks lib d.business.id context n d.checked d.source _ d.id s d.middle v kind
        identified)
      (subst IsWellFormed (sym d.state_is) (record {
        policies = w1.policies;
        proposals = w1.proposals;
        records = w1.records;
        revisions = w1.revisions;
      }))
      d.inserted
