-- ===== src/Memory/Model.antt =====
-- The rows of the memory system (models.py), what memory/service.py reads of other tables, and its
-- errors. A confidence is a count of millionths: the service only compares and keeps it.
use foundora_ai.Base.{
  ℕ, ◌≡◌, refl, arith, Bool, true, false, not, ◌||◌, leb, if◌then◌else◌, String, Option, List, Uuid,
  Datetime, Details,
}
use foundora_ai.Business.{Directory}
use foundora_ai.Events.Contracts.{EventError}
use foundora_ai.Events.Model.{Outbox}
use foundora_ai.Tasks.Model.{Task}

-- `below n` is n and one more millionths under zero.
pub data Confidence : Type 0 where
  below units : ℕ → Confidence

abbrev pub zero_confidence : Confidence
zero_confidence = units 0

abbrev pub whole : Confidence
whole = units 1000000

abbrev pub at_most : Confidence → Confidence → Bool
at_most (below a) (below b) = leb b a
at_most (below a) (units b) = true
at_most (units a) (below b) = false
at_most (units a) (units b) = leb a b

abbrev pub less : Confidence → Confidence → Bool
less a b = not (at_most b a)

-- Python's `max` keeps its first argument unless the second is larger.
abbrev pub larger : Confidence → Confidence → Confidence
larger a b = if less a b then b else a

-- `confidence < 0 or confidence > 1`
abbrev pub out_of_range : Confidence → Bool
out_of_range c = less c zero_confidence || less whole c

pub at_most_total : (a b : Confidence) → at_most a b ≡ false → at_most b a ≡ true
at_most_total (below a) (below b) h = ground arith
at_most_total (below a) (units b) h = ground arith
at_most_total (units a) (below b) h = refl
at_most_total (units a) (units b) h = ground arith

pub at_most_refl : (a : Confidence) → at_most a a ≡ true
at_most_refl (below a) = ground arith
at_most_refl (units a) = ground arith

pub at_most_trans :
    (a b c : Confidence) → at_most a b ≡ true → at_most b c ≡ true → at_most a c ≡ true
at_most_trans (below a) (below b) (below c) h k = ground arith
at_most_trans (below a) (units b) (below c) h k = ground arith
at_most_trans (below a) b (units c) h k = refl
at_most_trans (units a) (below b) c h k = ground arith
at_most_trans (units a) (units b) (below c) h k = ground arith
at_most_trans (units a) (units b) (units c) h k = ground arith

-- The values of `acceptance_route`, `accepted_via` and `created_by`.
pub data Route : Type 0 where
  founder automatic : Route

pub data ProposalStatus : Type 0 where
  pending accepted rejected merged : ProposalStatus

pub data MemoryStatus : Type 0 where
  active invalidated : MemoryStatus

pub record MemoryPolicy : Type 0 where
  pub business_id : Uuid
  pub automatic_accept_types : List String
  pub minimum_confidence : Confidence
  pub revision : ℕ
  pub updated_by_owner_id : Uuid
  pub created_at : Datetime
  pub updated_at : Datetime

pub record MemoryProposal : Type 0 where
  pub id : Uuid
  pub business_id : Uuid
  pub memory_type : String
  pub epistemic_status : String
  pub title : String
  pub content : String
  pub confidence : Confidence
  pub status : ProposalStatus
  pub acceptance_route : Route
  pub canonical_key : String
  pub execution_type : Option String
  pub execution_id : Option Uuid
  pub expires_at : Option Datetime
  pub source_kind : String
  pub source_id : Option String
  pub source_uri : Option String
  pub source_label : String
  pub source_excerpt : Option String
  pub source_metadata : Details
  pub requested_by_owner_id : Uuid
  pub decided_by_owner_id : Option Uuid
  pub resolution_memory_id : Option Uuid
  pub decision_reason : Option String
  pub revision : ℕ
  pub created_at : Datetime
  pub updated_at : Datetime
  pub decided_at : Option Datetime

pub record MemoryRecord : Type 0 where
  pub id : Uuid
  pub business_id : Uuid
  pub originating_proposal_id : Uuid
  pub memory_type : String
  pub epistemic_status : String
  pub title : String
  pub content : String
  pub confidence : Confidence
  pub status : MemoryStatus
  pub accepted_via : Route
  pub canonical_key : String
  pub execution_type : Option String
  pub execution_id : Option Uuid
  pub expires_at : Option Datetime
  pub current_revision : ℕ
  pub accepted_by_owner_id : Option Uuid
  pub created_at : Datetime
  pub updated_at : Datetime
  pub invalidated_at : Option Datetime
  pub invalidation_reason : Option String

-- The values of `change_type`.
pub data ChangeType : Type 0 where
  accepted merged : ChangeType

pub record MemoryRevision : Type 0 where
  pub id : Uuid
  pub memory_id : Uuid
  pub business_id : Uuid
  pub revision : ℕ
  pub proposal_id : Uuid
  pub change_type : ChangeType
  pub title : String
  pub content : String
  pub confidence : Confidence
  pub canonical_key : String
  pub created_by : Route
  pub created_by_owner_id : Option Uuid
  pub created_at : Datetime

pub record MemoryProvenance : Type 0 where
  pub id : Uuid
  pub memory_id : Uuid
  pub business_id : Uuid
  pub revision : ℕ
  pub source_kind : String
  pub source_id : Option String
  pub source_uri : Option String
  pub source_label : String
  pub source_excerpt : Option String
  pub source_metadata : Details
  pub created_at : Datetime

-- The columns of runs and of knowledge that the service reads.
pub record AgentRun : Type 0 where
  pub id : Uuid
  pub business_id : Uuid
  pub agent_id : String
  pub status : String

pub record WorkflowRun : Type 0 where
  pub id : Uuid
  pub business_id : Uuid
  pub workflow_id : String
  pub status : String

pub record KnowledgeSource : Type 0 where
  pub id : Uuid
  pub title : String
  pub source_uri : Option String
  pub status : String

pub record KnowledgeDocument : Type 0 where
  pub id : Uuid
  pub filename : String
  pub content_sha256 : String
  pub status : String

pub record DocumentChunk : Type 0 where
  pub id : Uuid
  pub business_id : Uuid
  pub source_id : Uuid
  pub document_id : Uuid
  pub ordinal : ℕ
  pub content : String
  pub content_sha256 : String

-- `MemoryConflict` by its message, and the other exceptions that leave an operation. `not_a_url` is
-- the `ValueError` of `urlsplit`.
pub data MemoryError : Type 0 where
  no_selected_business proposal_not_found record_not_found : MemoryError
  out_of_length : String → ℕ → MemoryError
  content_length metadata_invalid metadata_too_large secret_found : MemoryError
  uri_too_long uri_refused uri_with_secret not_a_url : MemoryError
  unsupported_type : MemoryError
  mismatched_type : String → String → MemoryError
  expiry_without_zone expiry_past working_without_scope working_too_long : MemoryError
  scoped_elsewhere : MemoryError
  entity_unavailable : String → MemoryError
  unsupported_source founder_with_id excerpt_too_long : MemoryError
  missing_source_id source_id_invalid citation_unavailable : MemoryError
  confidence_range unsupported_automatic policy_changed : MemoryError
  proposal_changed fact_needs_founder proposal_expired memory_changed : MemoryError
  unsupported_status scope_incomplete blank_query : MemoryError
  unpublished : EventError → MemoryError

pub record MemoryStore : Type 0 where
  pub directory : Directory
  pub tasks : List Task
  pub agent_runs : List AgentRun
  pub workflow_runs : List WorkflowRun
  pub sources : List KnowledgeSource
  pub documents : List KnowledgeDocument
  pub chunks : List DocumentChunk
  pub policies : List MemoryPolicy
  pub proposals : List MemoryProposal
  pub records : List MemoryRecord
  pub revisions : List MemoryRevision
  pub provenance : List MemoryProvenance
  pub outbox : Outbox
  pub clock : ℕ → Datetime
  pub ticks : ℕ
