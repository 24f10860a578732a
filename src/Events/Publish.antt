-- ===== src/Events/Publish.antt =====
-- `publish_event` of events/service.py. One reading of the clock, `now`, serves the whole call.
pub mod Insert
pub mod Replay
use foundora_ai.Base.{
  ℕ, suc, String, Bool, not, ◌&&◌, ◌||◌, Option, none, some, List, [], ◌∷◌, ◌++◌, Tx, ok, err, pure,
  raise_if, ◌>>◌, ◌==◌, ◌!=◌, nat_eq, string_eq, option_eq, if◌then◌else◌, find, is_nil,
  same_object, Uuid, Datetime, Details, External,
}
use foundora_ai.Events.Contracts.{
  EventConsumer, EventError, no_consumer, key_reused, consumers_for, validate_event,
}
use foundora_ai.Events.Model.{DomainEvent, EventDelivery, Outbox, pending}

-- The arguments of `publish_event`; `correlation` is the context variable, "-" when none is set.
pub record Request : Type 0 where
  pub business_id : Uuid
  pub event_type : String
  pub aggregate_type : String
  pub aggregate_id : String
  pub idempotency_key : String
  pub payload : Details
  pub schema_version : ℕ
  pub causation_event_id : Option Uuid
  pub occurred_at : Option Datetime
  pub correlation : String

unfoldable pub is_same_key : Request → DomainEvent → Bool
is_same_key r e =
    e.business_id == r.business_id
    && (e.event_type == r.event_type && e.idempotency_key == r.idempotency_key)

-- `any((existing.schema_version != schema_version, ...))`
unfoldable pub differs : Request → DomainEvent → Bool
differs r e =
    e.schema_version != r.schema_version
    || (e.aggregate_type != r.aggregate_type
        || (e.aggregate_id != r.aggregate_id
            || (not (same_object e.payload r.payload)
                || e.causation_event_id != r.causation_event_id)))

abbrev correlation_of : String → Option String
correlation_of c = if c != "-" then some c else none

abbrev or_now : Option Datetime → Datetime → Datetime
or_now none now = now
or_now (some t) now = t

unfoldable pub new_event : Request → Datetime → Uuid → DomainEvent
new_event r now id = record {
  id = id;
  business_id = r.business_id;
  event_type = r.event_type;
  schema_version = r.schema_version;
  aggregate_type = r.aggregate_type;
  aggregate_id = r.aggregate_id;
  idempotency_key = r.idempotency_key;
  correlation_id = correlation_of r.correlation;
  causation_event_id = r.causation_event_id;
  payload = r.payload;
  occurred_at = or_now r.occurred_at now;
  created_at = now;
}

unfoldable pub new_delivery : Uuid → Datetime → EventConsumer → Uuid → EventDelivery
new_delivery event_id now consumer id = record {
  id = id;
  event_id = event_id;
  consumer_name = consumer.name;
  status = pending;
  attempt_count = 0;
  max_attempts = consumer.max_attempts;
  redrive_count = 0;
  available_at = now;
  claimed_at = none;
  completed_at = none;
  dead_lettered_at = none;
  last_error_type = none;
  last_error_message = none;
  handler_result = none;
  created_at = now;
  updated_at = now;
}

-- `database.add_all([EventDelivery(id=uuid.uuid4(), ...) for consumer in registered])`
unfoldable pub add_deliveries : Uuid → Datetime → List EventConsumer → Outbox → Outbox
unfolding new_delivery
add_deliveries event_id now [] o = o
add_deliveries event_id now (c ∷ cs) o = add_deliveries event_id now cs (record o {
  deliveries = o.deliveries ++ new_delivery event_id now c o.next_uuid ∷ [];
  next_uuid = suc o.next_uuid;
})

-- The end of `publish_event`, where no event has the key yet.
unfoldable pub insert_event :
    Request → Datetime → List EventConsumer → Tx EventError Outbox DomainEvent
unfolding new_event add_deliveries
insert_event r now registered o =
    let event = new_event r now o.next_uuid in
    ok (
      event,
      add_deliveries event.id now registered
          (record o { events = o.events ++ event ∷ []; next_uuid = suc o.next_uuid }),
    )

unfoldable pub replay_event : Request → DomainEvent → Tx EventError Outbox DomainEvent
replay_event r existing = do raise_if (differs r existing) key_reused; pure existing

-- From the search for the key on.
unfoldable pub publish_to :
    List EventConsumer → Request → Datetime → Tx EventError Outbox DomainEvent
publish_to registered r now o = elim (find (is_same_key r) o.events) [
  | some existing ↦ replay_event r existing o
  | none ↦ insert_event r now registered o
]

unfoldable pub publish_event :
    External → List EventConsumer → Request → Datetime → Tx EventError Outbox DomainEvent
unfolding publish_to
publish_event ext consumers r now o =
    elim (validate_event ext r.event_type r.schema_version r.aggregate_type r.payload) [
      | err e ↦ err e
      | ok _ ↦
          let registered = consumers_for r.event_type consumers in
          if is_nil registered then err no_consumer else publish_to registered r now o
    ]
