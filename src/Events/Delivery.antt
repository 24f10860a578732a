-- ===== src/Events/Delivery.antt =====
-- events/service.py: the delivery of a claimed event, the dispatch loop and the redrive of a dead
-- letter; `audit_event_handler` of events/contracts.py. A handler is a function of the event; its
-- own writes, which stand in a nested transaction, are not modelled. One worker runs at a time, so
-- `skip_locked` skips nothing.
pub mod Lifecycle
pub mod Dispatch
pub mod Redrive
use Prim.Native.Nat.{◌^◌}
use foundora_ai.Base.{
  ℕ, zero, suc, ◌+◌, ◌-◌, ◌*◌, min, String, Bool, true, false, not, ◌&&◌, ◌||◌, Option, none, some,
  List, [], ◌∷◌, Result, Tx, ok, err, pure, raise_if, or_raise, continue, ◌>>=◌, ◌>>◌, gets, modify,
  ◌==◌, ◌!=◌, nat_eq, string_eq, ltb, leb, if◌then◌else◌, find, put, filter, contains, Uuid,
  Datetime, Details, flag, text, number, External,
}
use foundora_ai.Events.Contracts.{
  EventConsumer, EventError, delivery_not_found, not_dead_letter, delivery_changed, find_contract,
}
use foundora_ai.Events.Model.{
  DomainEvent, EventDelivery, DeliveryStatus, pending, retry_wait, processing, completed,
  dead_letter, Outbox,
}

-- What a handler does: it returns an object, or raises an exception of the named type.
pub data HandlerResult : Type 0 where
  returned : Details → HandlerResult
  raised : String → HandlerResult

-- The field `handler` of each consumer. A handler that times out raises `TimeoutError`; its writes to
-- other tables are not part of the outbox.
abbrev pub Handlers : Type 0
Handlers = EventConsumer → DomainEvent → HandlerResult

unfoldable pub audit_event_handler : DomainEvent → HandlerResult
audit_event_handler event = elim (find_contract event.event_type) [
  | none ↦ raised "EventContractError"
  | some c ↦
      if c.schema_version != event.schema_version
      then raised "EventContractError"
      else returned (
          ("observed", flag true)
          ∷ ("event_type", text event.event_type)
          ∷ ("schema_version", number event.schema_version)
          ∷ ("aggregate_type", text event.aggregate_type)
          ∷ ("aggregate_id", text event.aggregate_id)
          ∷ [])
]

abbrev pub is_claimable : DeliveryStatus → Bool
is_claimable pending = true
is_claimable retry_wait = true
is_claimable _ = false

abbrev pub is_dead : DeliveryStatus → Bool
is_dead dead_letter = true
is_dead _ = false

pub data Outcome : Type 0 where
  ignored delivered rescheduled dead_lettered : Outcome

abbrev pub second : ℕ
second = 1_000_000

-- `min(2 ** (attempt_count - 1), 300)` seconds.
unfoldable pub retry_delay : ℕ → ℕ
retry_delay attempt_count = min (2 ^ (attempt_count - 1)) 300 * second

-- The body of the `try`: the checks, the handler and the bound on its result.
unfoldable pub attempt :
    External → Handlers → Option DomainEvent → Option EventConsumer → HandlerResult
attempt ext handler none consumer = raised "EventDeliveryNotFound"
attempt ext handler (some event) none = raised "EventContractErrorForDelivery"
attempt ext handler (some event) (some consumer) =
    if contains consumer.event_types event.event_type
    then elim (handler consumer event) [
      | raised name ↦ raised name
      | returned result ↦
          if ltb 65_536 (ext.json_size result)
          then raised "EventContractErrorForDelivery"
          else returned result
    ]
    else raised "EventContractErrorForDelivery"

unfoldable pub claim : EventDelivery → Datetime → EventDelivery
claim d now = record d {
  status = processing;
  attempt_count = d.attempt_count + 1;
  claimed_at = some now;
  updated_at = now;
}

-- The `except` clause, and the end of the function.
unfoldable pub settle :
    External → Datetime → EventDelivery → HandlerResult → EventDelivery × Outcome
unfolding retry_delay
settle ext now d (returned result) = (
  record d {
    status = completed;
    handler_result = some result;
    last_error_type = none;
    last_error_message = none;
    completed_at = some now;
    dead_lettered_at = none;
    updated_at = now;
  },
  delivered,
)
settle ext now d (raised name) =
    let failed = record d {
      handler_result = none;
      last_error_type = some (ext.truncate 80 name);
      last_error_message = some "The registered event handler failed";
      completed_at = none;
    } in
    if leb d.max_attempts d.attempt_count
    then (
      record failed { status = dead_letter; dead_lettered_at = some now; updated_at = now },
      dead_lettered,
    )
    else (
      record failed {
        status = retry_wait;
        available_at = now + retry_delay d.attempt_count;
        updated_at = now;
      },
      rescheduled,
    )

unfoldable pub deliver_claimed_event :
    External
    → Handlers
    → EventDelivery
    → Option DomainEvent
    → Option EventConsumer
    → Datetime
    → EventDelivery × Outcome
unfolding claim attempt settle
deliver_claimed_event ext handler d event consumer now =
    if not (is_claimable d.status)
    then (d, ignored)
    else if ltb now d.available_at || leb d.max_attempts d.attempt_count
    then (d, ignored)
    else settle ext now (claim d now) (attempt ext handler event consumer)

-- The dispatcher's query: the due deliveries, the earliest first.
abbrev pub is_due : Datetime → EventDelivery → Bool
is_due now d =
    is_claimable d.status && (leb d.available_at now && ltb d.attempt_count d.max_attempts)

abbrev pub comes_before : EventDelivery → EventDelivery → Bool
comes_before a b =
    ltb a.available_at b.available_at
    || (a.available_at == b.available_at && ltb a.created_at b.created_at)

unfoldable pub earliest : EventDelivery → List EventDelivery → EventDelivery
earliest best [] = best
earliest best (d ∷ ds) = earliest (if comes_before d best then d else best) ds

abbrev first_of_order : List EventDelivery → Option EventDelivery
unfolding earliest
first_of_order [] = none
first_of_order (d ∷ ds) = some (earliest d ds)

unfoldable pub next_delivery : Datetime → List EventDelivery → Option EventDelivery
unfolding earliest
next_delivery now ds = first_of_order (filter (is_due now) ds)

pub record Summary : Type 0 where
  pub completed_count : ℕ
  pub retry_scheduled : ℕ
  pub dead_letters : ℕ

abbrev pub tally : Outcome → Summary → Summary
tally delivered s = record s { completed_count = s.completed_count + 1 }
tally rescheduled s = record s { retry_scheduled = s.retry_scheduled + 1 }
tally dead_lettered s = record s { dead_letters = s.dead_letters + 1 }
tally ignored s = s

-- The delivery of the row that a round chose, and the write of the row.
unfoldable pub dispatch_to :
    External → Handlers → List EventConsumer → Datetime → Outbox → EventDelivery → Outbox × Outcome
dispatch_to ext handler consumers now o d =
    let (d', outcome) =
      deliver_claimed_event ext handler d (find (λ e. e.id == d.event_id) o.events)
        (find (λ c. c.name == d.consumer_name) consumers) now in
    (record o { deliveries = put (λ x. x.id == d.id) d' o.deliveries }, outcome)

-- One round of the loop, in a transaction of its own; `none` when nothing is due.
unfoldable pub dispatch_one :
    External → Handlers → List EventConsumer → Datetime → Outbox → Option (Outbox × Outcome)
dispatch_one ext handler consumers now o = elim (next_delivery now o.deliveries) [
  | none ↦ none
  | some d ↦ some (dispatch_to ext handler consumers now o d)
]

-- The loop: `clock k` is the time that the k-th round from the end reads.
unfoldable pub dispatch_pending_events :
    External
    → Handlers
    → List EventConsumer
    → (clock : ℕ → Datetime) → (limit : ℕ) → Outbox
    → Summary
    → Outbox × Summary
dispatch_pending_events ext handler consumers clock zero o s = (o, s)
dispatch_pending_events ext handler consumers clock (suc limit) o s =
    elim (dispatch_one ext handler consumers (clock limit) o) [
      | none ↦ (o, s)
      | some (o', outcome) ↦
          dispatch_pending_events ext handler consumers clock limit o' (tally outcome s)
    ]

abbrev pub owned_by : Uuid → List DomainEvent → EventDelivery → Bool
owned_by business_id events d = elim (find (λ e. e.id == d.event_id) events) [
  | none ↦ false
  | some e ↦ e.business_id == business_id
]

-- The row that `redrive` writes.
abbrev pub redriven : EventDelivery → Datetime → EventDelivery
redriven d now = record d {
  status = pending;
  attempt_count = 0;
  redrive_count = d.redrive_count + 1;
  available_at = now;
  claimed_at = none;
  completed_at = none;
  dead_lettered_at = none;
  last_error_type = none;
  last_error_message = none;
  handler_result = none;
  updated_at = now;
}

unfoldable pub redrive : Uuid → Uuid → ℕ → Datetime → Tx EventError Outbox EventDelivery
redrive business_id delivery_id expected_redrive_count now = do
  o ← gets (λ o. o)
  d ←
      or_raise delivery_not_found
        (find (λ d. d.id == delivery_id && owned_by business_id o.events d) o.deliveries)
  raise_if (not (is_dead d.status)) not_dead_letter
  raise_if (d.redrive_count != expected_redrive_count) delivery_changed
  modify
      (λ o. record o { deliveries = put (λ x. x.id == delivery_id) (redriven d now) o.deliveries })
  pure (redriven d now)
