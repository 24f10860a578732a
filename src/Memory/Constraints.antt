-- ===== src/Memory/Constraints.antt =====
-- The CHECK constraints of the memory tables (models.py). A status, a route and a change type are of a
-- data type here, so the constraints that list their values are kept by the types.
pub mod Arguments
pub mod Rows
pub mod Kept
pub mod Operations
pub mod Reach
use foundora_ai.Base.{
  ℕ, String, Bool, true, false, ◌&&◌, ◌||◌, not, Option, none, some, List, [], ◌∷◌, ◌==◌, ◌!=◌,
  string_eq, ltb, leb, contains, Uuid, Datetime,
}
use foundora_ai.Business.{is_none}
use foundora_ai.Memory.Model.{
  MemoryPolicy, MemoryProposal, MemoryRecord, MemoryRevision, Confidence, zero_confidence, whole,
  at_most,
}
use foundora_ai.Memory.Text.{is_execution_type}
use foundora_ai.Memory.Accept.{is_automatic}

-- ck_memory_proposals_type_epistemic and ck_memory_records_type_epistemic
unfoldable pub is_valid_pair : String → String → Bool
is_valid_pair memory_type epistemic_status =
    (memory_type == "working"
      && (epistemic_status == "observation" || epistemic_status == "assumption"))
    || ((memory_type == "episodic" && epistemic_status == "observation")
        || ((memory_type == "semantic"
              && (epistemic_status == "fact" || epistemic_status == "assumption"))
            || ((memory_type == "decision" && epistemic_status == "decision")
                || ((memory_type == "preference" && epistemic_status == "preference")
                    || ((memory_type == "workflow" && epistemic_status == "procedure")
                        || (memory_type == "evaluation" && epistemic_status == "evaluation"))))))

-- ck_memory_proposals_working_scope and ck_memory_records_working_scope
unfoldable pub is_scoped : String → Option String → Option Uuid → Option Datetime → Bool
is_scoped memory_type execution_type execution_id expires_at =
    (memory_type == "working"
      && (not (is_none execution_type) && (not (is_none execution_id) && not (is_none expires_at))))
    || (memory_type != "working" && (is_none execution_type && is_none execution_id))

-- ck_memory_proposals_source_kind
unfoldable pub is_source_kind : String → Bool
is_source_kind kind =
    contains ("founder_input" ∷ "knowledge_chunk" ∷ "task" ∷ "agent_run" ∷ "workflow_run" ∷ []) kind

-- ck_memory_proposals_source_identity
unfoldable pub is_identified : String → Option String → Bool
is_identified kind source_id =
    (kind == "founder_input" && is_none source_id)
    || (kind != "founder_input" && not (is_none source_id))

-- `confidence >= 0 AND confidence <= 1`
abbrev pub is_fraction : Confidence → Bool
is_fraction c = at_most zero_confidence c && at_most c whole

unfoldable pub proposal_checks : MemoryProposal → Bool
proposal_checks p =
    is_valid_pair p.memory_type p.epistemic_status
    && (is_scoped p.memory_type p.execution_type p.execution_id p.expires_at
        && ((is_none p.execution_type || is_execution_type p.execution_type)
            && (is_source_kind p.source_kind
                && (is_identified p.source_kind p.source_id
                    && (is_fraction p.confidence && ltb 0 p.revision)))))

unfoldable pub record_checks : MemoryRecord → Bool
record_checks r =
    is_valid_pair r.memory_type r.epistemic_status
    && (is_scoped r.memory_type r.execution_type r.execution_id r.expires_at
        && ((r.epistemic_status != "fact" || not (is_automatic r.accepted_via))
            && (is_fraction r.confidence && ltb 0 r.current_revision)))

unfoldable pub policy_checks : MemoryPolicy → Bool
policy_checks p = is_fraction p.minimum_confidence && ltb 0 p.revision

-- ck_memory_revisions_revision
unfoldable pub revision_checks : MemoryRevision → Bool
revision_checks r = ltb 0 r.revision
