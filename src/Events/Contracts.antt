-- ===== src/Events/Contracts.antt =====
-- events/contracts.py: the registered contracts and consumers, and the validation of an event. The
-- verdict on a payload is the schema validator's, `payload_valid`.
mod Schema
pub mod Business
mod Website
pub use Schema.{EventContract}
use Business.{
  business_created, goal_created, task_completed, task_failed, approval_requested,
  knowledge_source_registered, knowledge_document_indexed, knowledge_source_invalidated,
  knowledge_document_invalidated, memory_proposed, memory_accepted, memory_merged,
  memory_invalidated,
}
use Website.{
  strategy_approved, product_offer_approved, brand_approved, website_specification_approved,
  website_project_built, sandbox_execution_finished,
}
use foundora_ai.Base.Fallible.{◌>>◌, raise_if}
use foundora_ai.Base.{
  ℕ, String, not, Option, none, some, List, [], ◌∷◌, map, Result, ok, err, ◌==◌, ◌!=◌, nat_eq,
  string_eq, find, filter, contains, Details, External,
}

pub record EventConsumer : Type 0 where
  pub name : String
  pub event_types : List String
  pub max_attempts : ℕ
  pub timeout_seconds : ℕ

unfoldable pub event_contracts : List EventContract
unfolding business_created goal_created task_completed task_failed approval_requested
    strategy_approved product_offer_approved brand_approved website_specification_approved
    website_project_built sandbox_execution_finished knowledge_source_registered
    knowledge_document_indexed knowledge_source_invalidated knowledge_document_invalidated
    memory_proposed memory_accepted memory_merged memory_invalidated
event_contracts =
    business_created ∷ goal_created ∷ task_completed ∷ task_failed ∷ approval_requested
    ∷ strategy_approved ∷ product_offer_approved ∷ brand_approved ∷ website_specification_approved
    ∷ website_project_built ∷ sandbox_execution_finished ∷ knowledge_source_registered
    ∷ knowledge_document_indexed ∷ knowledge_source_invalidated ∷ knowledge_document_invalidated
    ∷ memory_proposed ∷ memory_accepted ∷ memory_merged ∷ memory_invalidated ∷ []

unfoldable pub find_contract : String → Option EventContract
unfolding event_contracts
find_contract event_type = find (λ c. c.event_type == event_type) event_contracts

abbrev pub audit_consumer : EventConsumer
unfolding event_contracts
audit_consumer = record {
  name = "foundora.event-audit.v1";
  event_types = map (λ c. c.event_type) event_contracts;
  max_attempts = 5;
  timeout_seconds = 5;
}

abbrev pub registered_consumers : List EventConsumer
registered_consumers = audit_consumer ∷ []

unfoldable pub consumers_for : String → List EventConsumer → List EventConsumer
consumers_for event_type = filter (λ c. contains c.event_types event_type)

pub data EventError : Type 0 where
  unregistered_type unregistered_version aggregate_mismatch invalid_payload : EventError
  no_consumer key_reused delivery_not_found not_dead_letter delivery_changed : EventError

-- The checks of `validate_event` on the contract that was found.
unfoldable pub check_contract :
    External → EventContract → ℕ → String → Details → Result EventError EventContract
check_contract ext c schema_version aggregate_type payload = do
  raise_if (schema_version != c.schema_version) unregistered_version
  raise_if (aggregate_type != c.aggregate_type) aggregate_mismatch
  raise_if (not (ext.payload_valid c.payload_schema payload)) invalid_payload
  ok c

unfoldable pub validate_event :
    External → String → ℕ → String → Details → Result EventError EventContract
unfolding check_contract
validate_event ext event_type schema_version aggregate_type payload =
    elim (find_contract event_type) [
      | none ↦ err unregistered_type
      | some c ↦ check_contract ext c schema_version aggregate_type payload
    ]
