-- ===== src/Memory/Constraints/Kept.antt =====
-- Between transactions every row of the memory tables satisfies its CHECK constraints.
use foundora_ai.Base.{
  ℕ, ◌≡◌, inl, inr, refl, sym, ap, subst, ◌∙◌, String, Bool, true, false, ◌||◌, not, ◌==◌, ◌!=◌,
  nat_eq, string_eq, List, [], ◌∷◌, ◌++◌, ok, pure, arith, Result-cases, Bool-cases, ok-injective,
  All, All-append, All-put, All-find,
}
use foundora_ai.Business.{AuthContext, is_none}
use foundora_ai.Events.Contracts.{EventConsumer}
use foundora_ai.Memory.Model.{MemoryStore, MemoryProposal, MemoryRecord, Route, founder, automatic}
use foundora_ai.Memory.Text.{Libraries, validate_type, normalize_expiry, is_execution_type}
use foundora_ai.Memory.Session.{publish}
use foundora_ai.Memory.Accept.{accept_locked, is_automatic, is_duplicate}
use foundora_ai.Memory.Accept.Written.{
  Unchanged, publish-Unchanged, announce-Unchanged, Accepted, accept_locked-Accepted,
}
use foundora_ai.Memory.Propose.{
  NewMemory, Checked, check_arguments, accept_if_automatic, insert_proposal, proposal_request,
}
use foundora_ai.Memory.Decide.{reject, with_reason, settle_proposal, write_invalidation, is_pending}
use foundora_ai.Memory.Constraints.{
  is_valid_pair, is_scoped, is_fraction, proposal_checks, record_checks, policy_checks,
  revision_checks,
}
use foundora_ai.Memory.Constraints.Arguments.{
  validate_type-is_valid_pair, normalize_expiry-is_scoped,
}
use foundora_ai.Memory.Constraints.Rows.{
  accepted_record-checks, merged_record-checks, invalidated_record-checks, resolved_proposal-checks,
  rejected_proposal-checks, new_revision-checks,
}

pub record IsWellFormed (s : MemoryStore) : Type 0 where
  pub policies : All (λ p. policy_checks p ≡ true) s.policies
  pub proposals : All (λ p. proposal_checks p ≡ true) s.proposals
  pub records : All (λ r. record_checks r ≡ true) s.records
  pub revisions : All (λ r. revision_checks r ≡ true) s.revisions

pub IsWellFormed-of_Unchanged :
    (s s' : MemoryStore) → Unchanged s s' → IsWellFormed s → IsWellFormed s'
IsWellFormed-of_Unchanged s s' u w = record {
  policies = subst (All (λ p. policy_checks p ≡ true)) (sym u.policies) w.policies;
  proposals = subst (All (λ p. proposal_checks p ≡ true)) (sym u.proposals) w.proposals;
  records = subst (All (λ r. record_checks r ≡ true)) (sym u.records) w.records;
  revisions = subst (All (λ r. revision_checks r ≡ true)) (sym u.revisions) w.revisions;
}

-- The record that an acceptance inserts or merges into.
entry-checks :
    (p : MemoryProposal) (route : Route) (context : AuthContext) (s s' : MemoryStore)
    (x : MemoryProposal) (a : Accepted p route context s s' x)
    → proposal_checks p ≡ true
    → IsWellFormed s
    → record_checks a.entry ≡ true
entry-checks p route context s s' x a checked w = elim a.records [
  | inl (id, entry, new, rows) ↦
      ap record_checks entry ∙ accepted_record-checks p route context a.at id a.allowed checked
  | inr (r, found, entry, rows) ↦
      ap record_checks entry
      ∙ merged_record-checks r p a.at
          (All-find (λ r. record_checks r ≡ true) (is_duplicate p a.at) s.records r w.records found)
          checked
]

pub IsWellFormed-of_Accepted :
    (p : MemoryProposal) (route : Route) (context : AuthContext) (s s' : MemoryStore)
    (x : MemoryProposal)
    → proposal_checks p ≡ true
    → Accepted p route context s s' x
    → IsWellFormed s
    → IsWellFormed s'
IsWellFormed-of_Accepted p route context s s' x checked a w =
    let good = entry-checks p route context s s' x a checked w in
    record {
      policies = subst (All (λ p. policy_checks p ≡ true)) (sym a.policies) w.policies;
      proposals = subst (All (λ p. proposal_checks p ≡ true)) (sym a.proposals) (
          All-put (λ p. proposal_checks p ≡ true) (λ y. y.id == p.id) x s.proposals
            (ap proposal_checks a.result
              ∙ resolved_proposal-checks p a.entry a.change route context a.at checked)
            w.proposals);
      records = elim a.records [
        | inl (id, entry, new, rows) ↦
            subst (All (λ r. record_checks r ≡ true)) (sym rows)
              (All-append (λ r. record_checks r ≡ true) s.records _ w.records (good, tt))
        | inr (r, found, entry, rows) ↦ subst (All (λ r. record_checks r ≡ true)) (sym rows) (
            All-put (λ r. record_checks r ≡ true) (λ y. y.id == a.entry.id) a.entry s.records good
              w.records)
      ];
      revisions = subst (All (λ r. revision_checks r ≡ true)) (sym a.revisions) (
          All-append (λ r. revision_checks r ≡ true) s.revisions _ w.revisions
            (new_revision-checks a.entry p a.change route context a.at a.revision_id good, tt));
    }

pub accept_locked-IsWellFormed :
    (lib : Libraries) (consumers : List EventConsumer) (context : AuthContext) (p : MemoryProposal)
    (route : Route) (s s' : MemoryStore) (x : MemoryProposal)
    → proposal_checks p ≡ true
    → IsWellFormed s
    → accept_locked lib consumers context p route s ≡ ok (x, s')
    → IsWellFormed s'
accept_locked-IsWellFormed lib consumers context p route s s' x checked w h =
    IsWellFormed-of_Accepted p route context s s' x checked
      (accept_locked-Accepted lib consumers context p route s s' x h) w

accept_if_automatic-IsWellFormed :
    (lib : Libraries) (consumers : List EventConsumer) (context : AuthContext) (p : MemoryProposal)
    (s s' : MemoryStore) (x : MemoryProposal)
    → proposal_checks p ≡ true
    → IsWellFormed s
    → accept_if_automatic lib consumers context p s ≡ ok (x, s')
    → IsWellFormed s'
unfolding accept_if_automatic
accept_if_automatic-IsWellFormed lib consumers context p s s' x checked w h =
    elim (Bool-cases (is_automatic p.acceptance_route)) [
      | inl t ↦
          accept_locked-IsWellFormed lib consumers context p automatic s s' x checked w (rw t at h)
      | inr f ↦
          let (result, state) = ok-injective (pure p s) refl (rw f at h) in
          subst IsWellFormed state w
    ]

pub insert_proposal-IsWellFormed :
    (lib : Libraries) (consumers : List EventConsumer) (context : AuthContext) (p : MemoryProposal)
    (s s' : MemoryStore) (x : MemoryProposal)
    → proposal_checks p ≡ true
    → IsWellFormed s
    → insert_proposal lib consumers context p s ≡ ok (x, s')
    → IsWellFormed s'
unfolding insert_proposal
insert_proposal-IsWellFormed lib consumers context p s s' x checked w h =
    let s0 : MemoryStore = record s { proposals = s.proposals ++ p ∷ [] } in
    let w0 : IsWellFormed s0 = record {
      policies = w.policies;
      proposals =
          All-append (λ p. proposal_checks p ≡ true) s.proposals _ w.proposals (checked, tt);
      records = w.records;
      revisions = w.revisions;
    } in
    elim (Result-cases (publish lib consumers (proposal_request lib p) s0)) [
      | inr (e, bad) ↦ absurd (ground arith)
      | inl ((u, s1), good) ↦
          accept_if_automatic-IsWellFormed lib consumers context p s1 s' x checked
            (IsWellFormed-of_Unchanged s0 s1
              (publish-Unchanged lib consumers (proposal_request lib p) s0 s1 good) w0)
            (rw good at h)
    ]

-- What the checks of the arguments leave.
pub record Valid (n : NewMemory) (c : Checked) (s s' : MemoryStore) : Type 0 where
  pub pair : is_valid_pair n.memory_type n.epistemic_status ≡ true
  pub scope : is_scoped n.memory_type n.execution_type n.execution_id c.expires_at ≡ true
  pub execution : (is_none n.execution_type || is_execution_type n.execution_type) ≡ true
  pub confidence : is_fraction n.confidence ≡ true
  pub unchanged : Unchanged s s'

pub check_arguments-Unchanged :
    (lib : Libraries) (n : NewMemory) (c : Checked) (s s' : MemoryStore)
    → check_arguments lib n s ≡ ok (c, s')
    → Unchanged s s'
unfolding check_arguments
check_arguments-Unchanged lib n c s s' h = record {
  directory = ground arith;
  policies = ground arith;
  proposals = ground arith;
  records = ground arith;
  revisions = ground arith;
  later = ground arith;
}

pub check_arguments-Valid :
    (lib : Libraries) (n : NewMemory) (c : Checked) (s s' : MemoryStore)
    → check_arguments lib n s ≡ ok (c, s')
    → Valid n c s s'
unfolding check_arguments
check_arguments-Valid lib n c s s' h =
    let typed : validate_type n.memory_type n.epistemic_status ≡ ok tt = ground arith in
    let bounded : is_fraction n.confidence ≡ true = ground arith in
    let expiry : normalize_expiry n.memory_type n.expires_at n.execution_type n.execution_id c.at
        ≡ ok c.expires_at =
      ground arith in
    let (scope, execution) =
      normalize_expiry-is_scoped n.memory_type n.expires_at n.execution_type n.execution_id c.at
        c.expires_at expiry in
    record {
      pair = validate_type-is_valid_pair n.memory_type n.epistemic_status typed;
      scope = scope;
      execution = execution;
      confidence = bounded;
      unchanged = check_arguments-Unchanged lib n c s s' h;
    }

pub reject-IsWellFormed :
    (context : AuthContext) (p : MemoryProposal) (reason : String) (s s' : MemoryStore)
    (x : MemoryProposal)
    → proposal_checks p ≡ true
    → IsWellFormed s
    → reject context p reason s ≡ ok (x, s')
    → IsWellFormed s'
unfolding reject
reject-IsWellFormed context p reason s s' x checked w h =
    let (result, state) = ok-injective (reject context p reason s) refl h in
    subst IsWellFormed state (record {
      policies = w.policies;
      proposals =
          All-put (λ p. proposal_checks p ≡ true) _ _ s.proposals
            (rejected_proposal-checks p context reason (s.clock s.ticks) checked) w.proposals;
      records = w.records;
      revisions = w.revisions;
    })

pub settle_proposal-IsWellFormed :
    (lib : Libraries) (consumers : List EventConsumer) (context : AuthContext) (p : MemoryProposal)
    (expected : ℕ) (accept : Bool) (reason : String) (s s' : MemoryStore) (x : MemoryProposal)
    → proposal_checks p ≡ true
    → IsWellFormed s
    → settle_proposal lib consumers context p expected accept reason s ≡ ok (x, s')
    → IsWellFormed s'
unfolding settle_proposal with_reason proposal_checks
settle_proposal-IsWellFormed lib consumers context p expected true reason s s' x checked w h =
    elim (Bool-cases (not (is_pending p.status) || p.revision != expected)) [
      | inl t ↦ absurd (ground arith)
      | inr f ↦
          accept_locked-IsWellFormed lib consumers context (with_reason p reason) founder s s' x
            checked w (rw f at h)
    ]
settle_proposal-IsWellFormed lib consumers context p expected false reason s s' x checked w h =
    elim (Bool-cases (not (is_pending p.status) || p.revision != expected)) [
      | inl t ↦ absurd (ground arith)
      | inr f ↦ reject-IsWellFormed context p reason s s' x checked w (rw f at h)
    ]

pub write_invalidation-IsWellFormed :
    (lib : Libraries) (consumers : List EventConsumer) (r : MemoryRecord) (reason : String)
    (s s' : MemoryStore) (x : MemoryRecord)
    → record_checks r ≡ true
    → IsWellFormed s
    → write_invalidation lib consumers r reason s ≡ ok (x, s')
    → IsWellFormed s'
unfolding write_invalidation
write_invalidation-IsWellFormed lib consumers r reason s s' x checked w h =
    let (result, u) = announce-Unchanged lib consumers _ _ x _ s' h in
    IsWellFormed-of_Unchanged _ s' u (record {
      policies = w.policies;
      proposals = w.proposals;
      records =
          All-put (λ p. record_checks p ≡ true) _ _ s.records
            (invalidated_record-checks r reason (s.clock s.ticks) checked) w.records;
      revisions = w.revisions;
    })
