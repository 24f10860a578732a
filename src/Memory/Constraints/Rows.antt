-- ===== src/Memory/Constraints/Rows.antt =====
-- The rows that the operations of the memory system write keep the CHECK constraints.
use foundora_ai.Base.{◌≡◌, String, true, false, ◌&&◌, ◌==◌, string_eq, List, arith, Uuid, Datetime}
use foundora_ai.Business.{AuthContext}
use foundora_ai.Memory.Model.{
  MemoryProposal, MemoryRecord, MemoryPolicy, Route, ChangeType, Confidence, out_of_range,
}
use foundora_ai.Memory.Accept.{
  accepted_record, merged_record, new_revision, resolved_proposal, is_automatic,
}
use foundora_ai.Memory.Decide.{rejected_proposal, invalidated_record}
use foundora_ai.Memory.Policy.{new_policy, updated_policy}
use foundora_ai.Memory.Constraints.{proposal_checks, record_checks, policy_checks, revision_checks}

pub accepted_record-checks :
    (p : MemoryProposal) (route : Route) (context : AuthContext) (at : Datetime) (id : Uuid)
    → (p.epistemic_status == "fact" && is_automatic route) ≡ false
    → proposal_checks p ≡ true
    → record_checks (accepted_record p route context at id) ≡ true
unfolding proposal_checks record_checks accepted_record
accepted_record-checks p route context at id allowed h = ground arith

pub merged_record-checks :
    (r : MemoryRecord) (p : MemoryProposal) (at : Datetime)
    → record_checks r ≡ true
    → proposal_checks p ≡ true
    → record_checks (merged_record r p at) ≡ true
unfolding proposal_checks record_checks merged_record
merged_record-checks r p at hr hp = ground arith

pub invalidated_record-checks :
    (r : MemoryRecord) (reason : String) (at : Datetime)
    → record_checks r ≡ true
    → record_checks (invalidated_record r reason at) ≡ true
unfolding record_checks invalidated_record
invalidated_record-checks r reason at h = ground arith

pub resolved_proposal-checks :
    (p : MemoryProposal) (r : MemoryRecord) (change : ChangeType) (route : Route)
    (context : AuthContext) (at : Datetime)
    → proposal_checks p ≡ true
    → proposal_checks (resolved_proposal p r change route context at) ≡ true
unfolding proposal_checks resolved_proposal
resolved_proposal-checks p r change route context at h = ground arith

pub rejected_proposal-checks :
    (p : MemoryProposal) (context : AuthContext) (reason : String) (at : Datetime)
    → proposal_checks p ≡ true
    → proposal_checks (rejected_proposal p context reason at) ≡ true
unfolding proposal_checks rejected_proposal
rejected_proposal-checks p context reason at h = ground arith

pub new_policy-checks :
    (business_id : Uuid) (types : List String) (minimum : Confidence) (owner_id : Uuid)
    (at : Datetime)
    → out_of_range minimum ≡ false
    → policy_checks (new_policy business_id types minimum owner_id at) ≡ true
unfolding policy_checks new_policy
new_policy-checks business_id types minimum owner_id at h = ground arith

pub updated_policy-checks :
    (p : MemoryPolicy) (types : List String) (minimum : Confidence) (owner_id : Uuid)
    (at : Datetime)
    → out_of_range minimum ≡ false
    → policy_checks (updated_policy p types minimum owner_id at) ≡ true
unfolding policy_checks updated_policy
updated_policy-checks p types minimum owner_id at h = ground arith

pub new_revision-checks :
    (r : MemoryRecord) (p : MemoryProposal) (change : ChangeType) (route : Route)
    (context : AuthContext) (at : Datetime) (id : Uuid)
    → record_checks r ≡ true
    → revision_checks (new_revision r p change route context at id) ≡ true
unfolding record_checks revision_checks new_revision
new_revision-checks r p change route context at id h = ground arith
