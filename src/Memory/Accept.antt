-- ===== src/Memory/Accept.antt =====
-- `_accept_locked` of memory/service.py: a proposal becomes a record, or merges into one.
pub mod Written
use foundora_ai.Base.{
  ℕ, suc, ◌+◌, String, Bool, true, false, ◌&&◌, not, Option, none, some, List, [], ◌∷◌, ◌++◌, pure,
  raise_if, ◌>>=◌, ◌>>◌, gets, modify, ◌==◌, nat_eq, string_eq, if◌then◌else◌, ltb, leb, find, Uuid,
  Datetime, text, number,
}
use Prim.Native.String.{◌++◌ as ◌+++◌}
use foundora_ai.Business.{AuthContext}
use foundora_ai.Events.Contracts.{EventConsumer}
use foundora_ai.Events.Publish.{Request}
use foundora_ai.Memory.Model.{
  larger, MemoryProposal, MemoryRecord, MemoryRevision, MemoryProvenance, MemoryStatus, active,
  invalidated, Route, founder, automatic, ChangeType, ProposalStatus, fact_needs_founder,
  proposal_expired,
}
use foundora_ai.Memory.Text.{Libraries}
use foundora_ai.Memory.Session.{Work, now, new_uuid, write_proposal, write_record, announce}

abbrev pub is_active : MemoryStatus → Bool
is_active active = true
is_active invalidated = false

abbrev pub is_automatic : Route → Bool
is_automatic automatic = true
is_automatic founder = false

abbrev pub route_text : Route → String
route_text founder = "founder"
route_text automatic = "automatic"

abbrev pub change_text : ChangeType → String
change_text ChangeType.accepted = "accepted"
change_text ChangeType.merged = "merged"

abbrev pub status_of_change : ChangeType → ProposalStatus
status_of_change ChangeType.accepted = ProposalStatus.accepted
status_of_change ChangeType.merged = ProposalStatus.merged

-- `None if automatic else context.owner.id`
abbrev pub owner_of : Route → AuthContext → Option Uuid
owner_of automatic context = none
owner_of founder context = some context.owner_id

-- `expires_at IS NULL OR expires_at > now`
abbrev pub is_unexpired : Option Datetime → Datetime → Bool
is_unexpired none at = true
is_unexpired (some e) at = ltb at e

unfoldable pub is_duplicate : MemoryProposal → Datetime → MemoryRecord → Bool
is_duplicate p at r =
    r.business_id == p.business_id
    && (is_active r.status && (r.canonical_key == p.canonical_key && is_unexpired r.expires_at at))

unfoldable pub accepted_record :
    MemoryProposal → Route → AuthContext → Datetime → Uuid → MemoryRecord
accepted_record p route context at id = record {
  id = id;
  business_id = p.business_id;
  originating_proposal_id = p.id;
  memory_type = p.memory_type;
  epistemic_status = p.epistemic_status;
  title = p.title;
  content = p.content;
  confidence = p.confidence;
  status = active;
  accepted_via = route;
  canonical_key = p.canonical_key;
  execution_type = p.execution_type;
  execution_id = p.execution_id;
  expires_at = p.expires_at;
  current_revision = 1;
  accepted_by_owner_id = owner_of route context;
  created_at = at;
  updated_at = at;
  invalidated_at = none;
  invalidation_reason = none;
}

unfoldable pub merged_record : MemoryRecord → MemoryProposal → Datetime → MemoryRecord
merged_record r p at = record r {
  current_revision = r.current_revision + 1;
  confidence = larger r.confidence p.confidence;
  updated_at = at;
}

unfoldable pub new_revision :
    MemoryRecord
    → MemoryProposal
    → ChangeType
    → Route
    → AuthContext
    → Datetime
    → Uuid
    → MemoryRevision
new_revision r p change route context at id = record {
  id = id;
  memory_id = r.id;
  business_id = r.business_id;
  revision = r.current_revision;
  proposal_id = p.id;
  change_type = change;
  title = r.title;
  content = r.content;
  confidence = r.confidence;
  canonical_key = r.canonical_key;
  created_by = route;
  created_by_owner_id = owner_of route context;
  created_at = at;
}

unfoldable pub new_provenance : MemoryRecord → MemoryProposal → Datetime → Uuid → MemoryProvenance
new_provenance r p at id = record {
  id = id;
  memory_id = r.id;
  business_id = r.business_id;
  revision = r.current_revision;
  source_kind = p.source_kind;
  source_id = p.source_id;
  source_uri = p.source_uri;
  source_label = p.source_label;
  source_excerpt = p.source_excerpt;
  source_metadata = p.source_metadata;
  created_at = at;
}

abbrev pub reason_of : Route → MemoryProposal → Option String
reason_of automatic p = some "Accepted by configured automatic policy"
reason_of founder p = p.decision_reason

unfoldable pub resolved_proposal :
    MemoryProposal → MemoryRecord → ChangeType → Route → AuthContext → Datetime → MemoryProposal
resolved_proposal p r change route context at = record p {
  status = status_of_change change;
  resolution_memory_id = some r.id;
  revision = p.revision + 1;
  decided_by_owner_id = owner_of route context;
  decision_reason = reason_of route p;
  updated_at = at;
  decided_at = some at;
}

unfoldable pub acceptance_request :
    Libraries → MemoryProposal → MemoryRecord → ChangeType → Route → Request
acceptance_request lib p r change route = record {
  business_id = r.business_id;
  event_type = "memory." +++ change_text change;
  aggregate_type = "memory_record";
  aggregate_id = lib.external.uuid_text r.id;
  idempotency_key =
      "memory-proposal:" +++ lib.external.uuid_text p.id +++ ":" +++ change_text change;
  payload =
      ("proposal_id", text (lib.external.uuid_text p.id))
      ∷ ("memory_id", text (lib.external.uuid_text r.id))
      ∷ ("memory_type", text r.memory_type)
      ∷ ("epistemic_status", text r.epistemic_status)
      ∷ ("revision", number r.current_revision)
      ∷ ("accepted_via", text (route_text route))
      ∷ [];
  schema_version = 1;
  causation_event_id = none;
  occurred_at = none;
  correlation = lib.external.correlation;
}

-- From the insertion of the revision on. The proposal's row is written at the next flush, before the
-- event is inserted.
unfoldable pub record_change :
    Libraries
    → List EventConsumer
    → AuthContext
    → MemoryProposal
    → MemoryRecord
    → ChangeType
    → Route
    → Datetime
    → Work MemoryProposal
record_change lib consumers context p r change route at = do
  revision_id ← new_uuid
  modify (λ s. record s {
    revisions = s.revisions ++ new_revision r p change route context at revision_id ∷ [];
  })
  provenance_id ← new_uuid
  modify (λ s. record s { provenance = s.provenance ++ new_provenance r p at provenance_id ∷ [] })
  write_proposal (resolved_proposal p r change route context at)
  announce lib consumers (acceptance_request lib p r change route)
      (resolved_proposal p r change route context at)

unfoldable pub insert_record : MemoryRecord → Work (Unit {0})
insert_record r = modify (λ s. record s { records = s.records ++ r ∷ [] })

-- The two branches on `duplicate`.
unfoldable pub accept_into :
    Libraries
    → List EventConsumer
    → AuthContext
    → MemoryProposal
    → Route
    → Datetime
    → Option MemoryRecord
    → Work MemoryProposal
accept_into lib consumers context p route at none = do
  id ← new_uuid
  insert_record (accepted_record p route context at id)
  record_change lib consumers context p (accepted_record p route context at id) ChangeType.accepted
      route at
accept_into lib consumers context p route at (some r) = do
  write_record (merged_record r p at)
  record_change lib consumers context p (merged_record r p at) ChangeType.merged route at

unfoldable pub accept_locked :
    Libraries → List EventConsumer → AuthContext → MemoryProposal → Route → Work MemoryProposal
accept_locked lib consumers context p route = do
  raise_if (p.epistemic_status == "fact" && is_automatic route) fact_needs_founder
  at ← now
  raise_if (not (is_unexpired p.expires_at at)) proposal_expired
  records ← gets (λ s. s.records)
  accept_into lib consumers context p route at (find (is_duplicate p at) records)
