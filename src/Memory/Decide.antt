-- ===== src/Memory/Decide.antt =====
-- `decide_proposal` and `invalidate` of memory/service.py.
use foundora_ai.Base.{
  ℕ, ◌+◌, String, Bool, true, false, ◌&&◌, ◌||◌, not, none, some, List, [], ◌∷◌, pure, or_raise,
  raise_if, ◌>>=◌, ◌>>◌, gets, ◌==◌, ◌!=◌, nat_eq, find, Uuid, Datetime, text, number, decimal,
}
use Prim.Native.String.{◌++◌ as ◌+++◌}
use foundora_ai.Business.{AuthContext}
use foundora_ai.Events.Contracts.{EventConsumer}
use foundora_ai.Events.Publish.{Request}
use foundora_ai.Memory.Model.{
  MemoryProposal, MemoryRecord, ProposalStatus, pending, rejected, founder, invalidated,
  proposal_not_found, proposal_changed, record_not_found, memory_changed,
}
use foundora_ai.Memory.Text.{Libraries, check_reason}
use foundora_ai.Memory.Session.{
  Work, now, lift, selected_business, write_proposal, write_record, announce,
}
use foundora_ai.Memory.Accept.{accept_locked, is_active}

abbrev pub is_pending : ProposalStatus → Bool
is_pending pending = true
is_pending _ = false

unfoldable pub rejected_proposal : MemoryProposal → AuthContext → String → Datetime → MemoryProposal
rejected_proposal p context reason at = record p {
  status = rejected;
  revision = p.revision + 1;
  decided_by_owner_id = some context.owner_id;
  decision_reason = some reason;
  updated_at = at;
  decided_at = some at;
}

unfoldable pub reject : AuthContext → MemoryProposal → String → Work MemoryProposal
reject context p reason = do
  at ← now
  write_proposal (rejected_proposal p context reason at)
  pure (rejected_proposal p context reason at)

unfoldable pub with_reason : MemoryProposal → String → MemoryProposal
with_reason p reason = record p { decision_reason = some reason }

-- From the test of the proposal's status on.
unfoldable pub settle_proposal :
    Libraries
    → List EventConsumer
    → AuthContext
    → MemoryProposal
    → ℕ
    → Bool
    → String
    → Work MemoryProposal
settle_proposal lib consumers context p expected_revision accept reason = do
  raise_if (not (is_pending p.status) || p.revision != expected_revision) proposal_changed
  elim accept [
    | true ↦ accept_locked lib consumers context (with_reason p reason) founder
    | false ↦ reject context p reason
  ]

unfoldable pub find_proposal : Uuid → Uuid → Work MemoryProposal
find_proposal business_id proposal_id = do
  proposals ← gets (λ s. s.proposals)
  or_raise proposal_not_found
      (find (λ p. p.id == proposal_id && p.business_id == business_id) proposals)

unfoldable pub decide_proposal :
    Libraries → List EventConsumer → AuthContext → Uuid → ℕ → Bool → String → Work MemoryProposal
decide_proposal lib consumers context proposal_id expected_revision accept reason = do
  normalized ← lift (check_reason lib "Decision reason" reason)
  business ← selected_business context
  p ← find_proposal business.id proposal_id
  settle_proposal lib consumers context p expected_revision accept normalized

unfoldable pub invalidated_record : MemoryRecord → String → Datetime → MemoryRecord
invalidated_record r reason at = record r {
  status = invalidated;
  current_revision = r.current_revision + 1;
  updated_at = at;
  invalidated_at = some at;
  invalidation_reason = some reason;
}

unfoldable pub invalidation_request : Libraries → MemoryRecord → Request
invalidation_request lib r = record {
  business_id = r.business_id;
  event_type = "memory.invalidated";
  aggregate_type = "memory_record";
  aggregate_id = lib.external.uuid_text r.id;
  idempotency_key =
      "memory:" +++ lib.external.uuid_text r.id +++ ":invalidated:" +++ decimal r.current_revision;
  payload =
      ("memory_id", text (lib.external.uuid_text r.id))
      ∷ ("memory_type", text r.memory_type)
      ∷ ("revision", number r.current_revision)
      ∷ [];
  schema_version = 1;
  causation_event_id = none;
  occurred_at = none;
  correlation = lib.external.correlation;
}

-- From the reading of the clock on.
unfoldable pub write_invalidation :
    Libraries → List EventConsumer → MemoryRecord → String → Work MemoryRecord
write_invalidation lib consumers r reason = do
  at ← now
  write_record (invalidated_record r reason at)
  announce lib consumers (invalidation_request lib (invalidated_record r reason at))
      (invalidated_record r reason at)

unfoldable pub find_record : Uuid → Uuid → Work MemoryRecord
find_record business_id memory_id = do
  records ← gets (λ s. s.records)
  or_raise record_not_found (find (λ r. r.id == memory_id && r.business_id == business_id) records)

unfoldable pub invalidate :
    Libraries → List EventConsumer → AuthContext → Uuid → ℕ → String → Work MemoryRecord
invalidate lib consumers context memory_id expected_revision reason = do
  normalized ← lift (check_reason lib "Invalidation reason" reason)
  business ← selected_business context
  r ← find_record business.id memory_id
  raise_if (not (is_active r.status) || r.current_revision != expected_revision) memory_changed
  write_invalidation lib consumers r normalized
