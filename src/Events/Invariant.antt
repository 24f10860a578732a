-- ===== src/Events/Invariant.antt =====
-- What holds of the outbox between two transactions, and that each of them keeps it.
pub mod Published
pub mod Delivered
pub mod Reachable
use foundora_ai.Base.{
  ℕ, ◌<◌, ◌≡◌, ◌≢◌, String, Option, none, List, All, Distinct, find, ◌==◌, nat_eq, Uuid,
}
use foundora_ai.Events.Contracts.{EventConsumer}
use foundora_ai.Events.Model.{DomainEvent, EventDelivery, Outbox}
use foundora_ai.Events.Delivery.Lifecycle.{IsSound}

-- The columns of `uq_domain_events_idempotency`.
abbrev pub event_key : DomainEvent → Uuid × String × String
event_key e = (e.business_id, e.event_type, e.idempotency_key)

abbrev pub Refers : List DomainEvent → EventDelivery → Type 0
Refers events d = find (λ e. e.id == d.event_id) events ≢ none

pub record IsWellFormed (o : Outbox) : Type 0 where
  pub event_ids : All (λ e. e.id < o.next_uuid) o.events
  pub delivery_ids : All (λ d. d.id < o.next_uuid) o.deliveries
  pub distinct_keys : Distinct event_key o.events
  pub distinct_events : Distinct (λ e. e.id) o.events
  pub distinct_deliveries : Distinct (λ d. d.id) o.deliveries
  pub referenced : All (Refers o.events) o.deliveries
  pub sound : All IsSound o.deliveries

abbrev pub MayAttempt : EventConsumer → Type 0
MayAttempt c = 0 < c.max_attempts
