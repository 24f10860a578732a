-- ===== src/Events/Model.antt =====
-- models.py: the rows of the event bus, and the session that its functions write to.
use foundora_ai.Base.{ℕ, String, Option, List, Uuid, Datetime, Details}

pub record DomainEvent : Type 0 where
  pub id : Uuid
  pub business_id : Uuid
  pub event_type : String
  pub schema_version : ℕ
  pub aggregate_type : String
  pub aggregate_id : String
  pub idempotency_key : String
  pub correlation_id : Option String
  pub causation_event_id : Option Uuid
  pub payload : Details
  pub occurred_at : Datetime
  pub created_at : Datetime

pub data DeliveryStatus : Type 0 where
  pending retry_wait processing completed dead_letter : DeliveryStatus

pub record EventDelivery : Type 0 where
  pub id : Uuid
  pub event_id : Uuid
  pub consumer_name : String
  pub status : DeliveryStatus
  pub attempt_count : ℕ
  pub max_attempts : ℕ
  pub redrive_count : ℕ
  pub available_at : Datetime
  pub claimed_at : Option Datetime
  pub completed_at : Option Datetime
  pub dead_lettered_at : Option Datetime
  pub last_error_type : Option String
  pub last_error_message : Option String
  pub handler_result : Option Details
  pub created_at : Datetime
  pub updated_at : Datetime

-- The outbox of a session: its tables, and the next number of the supply that `uuid.uuid4()` draws
-- from, so that no two draws agree.
pub record Outbox : Type 0 where
  pub events : List DomainEvent
  pub deliveries : List EventDelivery
  pub next_uuid : Uuid
