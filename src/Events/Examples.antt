-- ===== src/Events/Examples.antt =====
-- The event bus on a concrete outbox: a creation event of a business and one consumer.
use foundora_ai.Base.{
  ℕ, suc, ◌+◌, ◌*◌, ◌≤◌, ◌<◌, ◌≡◌, ◌≢◌, ◌⊎◌, refl, arith, true, false, none, some, List, [], ◌∷◌,
  All, ok, err, External, text,
}
use mathlib.Core.List.{Memᴰ}
use foundora_ai.Events.Contracts.Business.{business_created}
use foundora_ai.Events.Contracts.{
  EventConsumer, not_dead_letter, event_contracts, find_contract, validate_event, check_contract,
  consumers_for,
}
use foundora_ai.Events.Model.{
  DomainEvent, EventDelivery, Outbox, pending, completed, retry_wait, dead_letter,
}
use foundora_ai.Events.Publish.{
  Request, publish_event, publish_to, insert_event, add_deliveries, new_event, new_delivery,
  is_same_key,
}
use foundora_ai.Events.Publish.Replay.{publish_twice}
use foundora_ai.Events.Delivery.{
  Handlers, returned, raised, delivered, dead_lettered, rescheduled, second, is_due, comes_before,
  attempt, deliver_claimed_event, next_delivery, earliest, Summary, dispatch_pending_events,
  redrive,
}
use foundora_ai.Events.Delivery.{dispatch_to, redriven}
use foundora_ai.Events.Delivery.Dispatch.{next_delivery_earliest, total, dispatch_accounts}
use foundora_ai.Events.Delivery.Redrive.{the_delivery, redrive_once}
use foundora_ai.Events.Invariant.{IsWellFormed}
use foundora_ai.Events.Invariant.Reachable.{
  Reach, here, next, published, dispatched, Reach-IsWellFormed,
}
use foundora_ai.Events.Delivery.Lifecycle.{
  IsSound, deliver-IsSound, deliver_due, deliver_repeatedly, deliver_repeatedly-dead,
}

abbrev ext : External
ext = record {
  uuid_text = λ _. "id";
  payload_valid = λ _ _. true;
  truncate = λ _ t. t;
  json_size = λ _. 2;
  correlation = "-";
}

abbrev consumers : List EventConsumer
consumers =
    record {
      name = "audit";
      event_types = "business.created" ∷ [];
      max_attempts = 2;
      timeout_seconds = 5;
    }
    ∷ []

abbrev creation : Request
creation = record {
  business_id = 1;
  event_type = "business.created";
  aggregate_type = "business";
  aggregate_id = "1";
  idempotency_key = "business:1:created";
  payload = ("name", text "Shop") ∷ [];
  schema_version = 1;
  causation_event_id = none;
  occurred_at = none;
  correlation = "-";
}

abbrev empty : Outbox
empty = record { events = []; deliveries = []; next_uuid = 5 }

abbrev created : DomainEvent
created = record {
  id = 5;
  business_id = 1;
  event_type = "business.created";
  schema_version = 1;
  aggregate_type = "business";
  aggregate_id = "1";
  idempotency_key = "business:1:created";
  correlation_id = none;
  causation_event_id = none;
  payload = ("name", text "Shop") ∷ [];
  occurred_at = 100;
  created_at = 100;
}

abbrev waiting : EventDelivery
waiting = record {
  id = 6;
  event_id = 5;
  consumer_name = "audit";
  status = pending;
  attempt_count = 0;
  max_attempts = 2;
  redrive_count = 0;
  available_at = 100;
  claimed_at = none;
  completed_at = none;
  dead_lettered_at = none;
  last_error_type = none;
  last_error_message = none;
  handler_result = none;
  created_at = 100;
  updated_at = 100;
}

abbrev sent : Outbox
sent = record { events = created ∷ []; deliveries = waiting ∷ []; next_uuid = 7 }

creation_published : publish_event ext consumers creation 100 empty ≡ ok (created, sent)
unfolding publish_event validate_event find_contract event_contracts business_created check_contract
    consumers_for publish_to is_same_key insert_event new_event add_deliveries new_delivery
creation_published = refl

publish_twice_example : publish_event ext consumers creation 200 sent ≡ ok (created, sent)
publish_twice_example =
    publish_twice ext consumers creation 100 200 empty created sent creation_published

-- A handler that raises on every event, and one that answers.
abbrev always_raise : Handlers
always_raise consumer event = raised "ValueError"

abbrev answer : Handlers
answer consumer event = returned []

waiting-IsSound : IsSound waiting
waiting-IsSound = ground arith

deliver-IsSound_example :
    IsSound (deliver_claimed_event ext always_raise waiting (some created) none 150).0
deliver-IsSound_example =
    deliver-IsSound ext always_raise waiting (some created) none 150 waiting-IsSound

deliver_due_example :
    let (d', outcome) = deliver_claimed_event ext answer waiting (some created) none 150 in
    (d'.attempt_count ≡ 1)
    × ((outcome ≡ delivered) × (d'.status ≡ completed)
        ⊎ (outcome ≡ dead_lettered)
          × (d'.status ≡ dead_letter)
          × (d'.max_attempts ≤ d'.attempt_count)
        ⊎ (outcome ≡ rescheduled)
          × (d'.status ≡ retry_wait)
          × (d'.attempt_count < d'.max_attempts)
          × (150 + second ≤ d'.available_at)
          × (d'.available_at ≤ 150 + 300 * second))
deliver_due_example = deliver_due ext answer waiting (some created) none 150 refl

deliver_repeatedly-dead_example :
    ((deliver_repeatedly ext always_raise (some created) none 2 waiting).status ≡ dead_letter)
    × ((deliver_repeatedly ext always_raise (some created) none 1 waiting).status ≢ dead_letter)
deliver_repeatedly-dead_example =
    deliver_repeatedly-dead ext always_raise (some created) none "EventContractErrorForDelivery"
      fails 1 waiting refl refl
  where
    fails : attempt ext always_raise (some created) none ≡ raised "EventContractErrorForDelivery"
    fails = unfold attempt in refl

empty-IsWellFormed : IsWellFormed empty
empty-IsWellFormed = record {
  event_ids = tt;
  delivery_ids = tt;
  distinct_keys = tt;
  distinct_events = tt;
  distinct_deliveries = tt;
  referenced = tt;
  sound = tt;
}

next_waiting : next_delivery 150 sent.deliveries ≡ some waiting
unfolding next_delivery earliest
next_waiting = refl

sent_then_dispatched :
    Reach ext always_raise consumers empty
      (dispatch_to ext always_raise consumers 150 sent waiting).0
sent_then_dispatched =
    next (next here (published creation 100 empty created sent creation_published))
      (dispatched 150 sent waiting next_waiting)

Reach-IsWellFormed_example :
    IsWellFormed (dispatch_to ext always_raise consumers 150 sent waiting).0
Reach-IsWellFormed_example =
    Reach-IsWellFormed ext always_raise consumers (omega arith, tt) empty-IsWellFormed
      sent_then_dispatched

next_delivery_earliest_example :
    Memᴰ waiting sent.deliveries
    × (is_due 150 waiting ≡ true)
    × All (λ x. is_due 150 x ≡ true → comes_before x waiting ≡ false) sent.deliveries
next_delivery_earliest_example = next_delivery_earliest 150 sent.deliveries waiting next_waiting

abbrev zeroes : Summary
zeroes = record { completed_count = 0; retry_scheduled = 0; dead_letters = 0 }

dispatch_accounts_example :
    let (o', s') = dispatch_pending_events ext answer consumers (λ _. 150) 3 sent zeroes in
    (total s' ≡ total zeroes + 3)
    ⊎ ((k : ℕ) × (total s' + suc k ≡ total zeroes + 3)
        × All (λ d. is_due 150 d ≡ false) o'.deliveries)
dispatch_accounts_example = dispatch_accounts ext answer consumers (λ _. 150) 3 sent zeroes

-- The delivery after its two failures, and the outbox that holds it.
abbrev dead : EventDelivery
dead = record waiting {
  status = dead_letter;
  attempt_count = 2;
  claimed_at = some 1_000_100;
  dead_lettered_at = some 1_000_100;
  last_error_type = some "ValueError";
  last_error_message = some "The registered event handler failed";
  updated_at = 1_000_100;
}

abbrev failed : Outbox
failed = record sent { deliveries = dead ∷ [] }

abbrev revived : Outbox
revived = record sent { deliveries = redriven dead 2_000_000 ∷ [] }

redrive_once_example :
    (the_delivery 1 6 revived ≡ some (redriven dead 2_000_000))
    × (is_due 2_000_000 (redriven dead 2_000_000) ≡ true)
    × ((redriven dead 2_000_000).attempt_count ≡ 0)
    × ((redriven dead 2_000_000).redrive_count ≡ 1)
    × (redrive 1 6 0 3_000_000 revived ≡ err not_dead_letter)
redrive_once_example =
    redrive_once 1 6 0 2_000_000 3_000_000 failed (redriven dead 2_000_000) revived done
      (omega arith)
  where
    done : redrive 1 6 0 2_000_000 failed ≡ ok (redriven dead 2_000_000, revived)
    done = unfold redrive in refl
