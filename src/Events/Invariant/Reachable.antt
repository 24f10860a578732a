-- ===== src/Events/Invariant/Reachable.antt =====
-- The transactions of the event bus as steps, and what holds of every outbox that they reach.
use foundora_ai.Base.{ℕ, ◌≡◌, some, List, ok, All, Uuid, Datetime, External}
use foundora_ai.Events.Contracts.{EventConsumer}
use foundora_ai.Events.Model.{DomainEvent, EventDelivery, Outbox}
use foundora_ai.Events.Publish.{Request, publish_event}
use foundora_ai.Events.Delivery.{Handlers, next_delivery, dispatch_to, redrive}
use foundora_ai.Events.Invariant.{IsWellFormed, MayAttempt}
use foundora_ai.Events.Invariant.Published.{publish-IsWellFormed}
use foundora_ai.Events.Invariant.Delivered.{dispatch_to-IsWellFormed, redrive-IsWellFormed}

module _ (ext : External) (handler : Handlers) (consumers : List EventConsumer) where
  -- A committed transaction. One that raises changes nothing.
  pub data Step : Outbox → Outbox → Type 0 where
    published :
        (r : Request) (now : Datetime) (o : Outbox) (e : DomainEvent) (o' : Outbox)
        → publish_event ext consumers r now o ≡ ok (e, o')
        → Step o o'
    dispatched :
        (now : Datetime) (o : Outbox) (d : EventDelivery)
        → next_delivery now o.deliveries ≡ some d
        → Step o (dispatch_to ext handler consumers now o d).0
    restarted :
        (business_id delivery_id : Uuid) (expected : ℕ) (now : Datetime) (o : Outbox)
        (d : EventDelivery) (o' : Outbox)
        → redrive business_id delivery_id expected now o ≡ ok (d, o')
        → Step o o'

  pub data Reach (o : Outbox) : Outbox → Type 0 where
    here : Reach o o
    next : {p q : Outbox} → Reach o p → Step p q → Reach o q

  module _ (able : All MayAttempt consumers) where
    Step-IsWellFormed : {o o' : Outbox} → Step o o' → IsWellFormed o → IsWellFormed o'
    Step-IsWellFormed (published r now o e o' h) w =
        publish-IsWellFormed ext consumers r now o e o' able w h
    Step-IsWellFormed (dispatched now o d h) w =
        dispatch_to-IsWellFormed ext handler consumers now o d w h
    Step-IsWellFormed (restarted business_id delivery_id expected now o d o' h) w =
        redrive-IsWellFormed business_id delivery_id expected now o d o' w h

    -- From a well-formed outbox, and consumers that allow at least one attempt each, every sequence
    -- of publications, rounds of the dispatcher and redrives leads to a well-formed outbox: event
    -- keys, event ids and delivery ids are distinct, every delivery refers to an event, no attempt
    -- count passes its maximum, a claimable delivery has an attempt left, a dead one has used them
    -- all, and none is left in `processing`.
    pub Reach-IsWellFormed : {o o' : Outbox} → IsWellFormed o → Reach o o' → IsWellFormed o'
    Reach-IsWellFormed w here = w
    Reach-IsWellFormed w (next r s) = Step-IsWellFormed s (Reach-IsWellFormed w r)
