-- ===== src/Events/Invariant/Published.antt =====
-- Publishing keeps the outbox well-formed.
use foundora_ai.Base.{
  suc, ◌+◌, ◌≤◌, ◌<◌, ◌≡◌, refl, ap, arith, true, false, none, List, [], ◌∷◌, ◌++◌, ok, find, All,
  All-append, All-filter, All-mono, All-of_find-none, Distinct, Distinct-append, find-append_left,
  find-append_last, contains, ◌==◌, eq_self, nat_eq, string_eq, length, Uuid, Datetime, External,
}
use foundora_ai.Events.Contracts.{EventConsumer, consumers_for}
use foundora_ai.Events.Model.{DomainEvent, EventDelivery, Outbox}
use foundora_ai.Events.Delivery.Lifecycle.{IsSound}
use foundora_ai.Events.Publish.{Request, is_same_key, new_event, new_delivery, publish_event}
use foundora_ai.Events.Publish.Insert.{
  fresh, inserted, Published, replayed, created, Published-of_publish,
}
use foundora_ai.Events.Invariant.{event_key, Refers, IsWellFormed, MayAttempt}

module _ (event_id : Uuid) (now : Datetime) where
  new_delivery-IsSound :
      (c : EventConsumer) (id : Uuid) → MayAttempt c → IsSound (new_delivery event_id now c id)
  unfolding new_delivery
  new_delivery-IsSound c id h = ground arith

  fresh-IsSound :
      (cs : List EventConsumer) (id : Uuid)
      → All MayAttempt cs
      → All IsSound (fresh event_id now cs id)
  unfolding fresh
  fresh-IsSound [] id h = tt
  fresh-IsSound (c ∷ cs) id h = (new_delivery-IsSound c id h.0, fresh-IsSound cs (suc id) h.1)

  fresh_bounds :
      (cs : List EventConsumer) (id : Uuid)
      → All (λ d. (id ≤ d.id) × (d.id < id + length cs)) (fresh event_id now cs id)
  unfolding fresh new_delivery
  fresh_bounds [] id = tt
  fresh_bounds (c ∷ cs) id = (
    (omega arith, omega arith),
    All-mono (λ d. (suc id ≤ d.id) × (d.id < suc id + length cs)) _ (fresh event_id now cs (suc id))
        (λ d h. omega arith) (fresh_bounds cs (suc id)),
  )

  fresh-Distinct :
      (cs : List EventConsumer) (id : Uuid) → Distinct (λ d. d.id) (fresh event_id now cs id)
  unfolding fresh new_delivery
  fresh-Distinct [] id = tt
  fresh-Distinct (c ∷ cs) id = (
    All-mono (λ d. (suc id ≤ d.id) × (d.id < suc id + length cs)) _ (fresh event_id now cs (suc id))
        (λ d h. omega arith) (fresh_bounds cs (suc id)),
    fresh-Distinct cs (suc id),
  )

  fresh-event :
      (cs : List EventConsumer) (id : Uuid)
      → All (λ d. d.event_id ≡ event_id) (fresh event_id now cs id)
  unfolding fresh new_delivery
  fresh-event [] id = tt
  fresh-event (c ∷ cs) id = (refl, fresh-event cs (suc id))

other_key :
    (r : Request) (now : Datetime) (id : Uuid) (e : DomainEvent)
    → is_same_key r e ≡ false
    → ¬ (event_key e ≡ event_key (new_event r now id))
unfolding is_same_key new_event
other_key r now id e differs same =
    let b : e.business_id ≡ r.business_id = ap (λ k. k.0) same in
    let t : e.event_type ≡ r.event_type = ap (λ k. k.1) same in
    let k : e.idempotency_key ≡ r.idempotency_key = ap (λ k. k.2) same in
    let bad : true ≡ false =
      rw (b, t, k, eq_self r.business_id, eq_self r.event_type, eq_self r.idempotency_key) at
        differs in
    cc

module _ (r : Request) (now : Datetime) (registered : List EventConsumer) (o : Outbox)
    (missing : find (is_same_key r) o.events ≡ none) (able : All MayAttempt registered)
    (w : IsWellFormed o) where
  abbrev n : Uuid
  n = o.next_uuid

  abbrev event : DomainEvent
  event = new_event r now n

  last_found : (d : EventDelivery) → d.event_id ≡ n → Refers (o.events ++ event ∷ []) d
  unfolding new_event
  last_found d e = find-append_last (λ x. x.id == d.event_id) o.events event (rw e (eq_self n))

  inserted-IsWellFormed : IsWellFormed (inserted r now registered o)
  unfolding inserted new_event
  inserted-IsWellFormed = record {
    event_ids =
        All-append _ o.events _ (All-mono _ _ o.events (λ e h. omega arith) w.event_ids)
          (omega arith, tt);
    delivery_ids =
        All-append _ o.deliveries _ (All-mono _ _ o.deliveries (λ e h. omega arith) w.delivery_ids)
          (All-mono _ _ (fresh n now registered (suc n)) (λ d h. omega arith)
            (fresh_bounds n now registered (suc n)));
    distinct_keys =
        Distinct-append _ o.events _ w.distinct_keys (tt, tt)
          (All-mono _ _ o.events (λ e h. (other_key r now n e h, tt))
            (All-of_find-none (is_same_key r) o.events missing));
    distinct_events =
        Distinct-append _ o.events _ w.distinct_events (tt, tt)
          (All-mono _ _ o.events (λ e h. (omega arith, tt)) w.event_ids);
    distinct_deliveries =
        Distinct-append _ o.deliveries _ w.distinct_deliveries
          (fresh-Distinct n now registered (suc n))
          (All-mono _ _ o.deliveries
            (λ d h.
              All-mono _ _ (fresh n now registered (suc n)) (λ d' h'. omega arith)
                (fresh_bounds n now registered (suc n)))
            w.delivery_ids);
    referenced =
        All-append _ o.deliveries _
          (All-mono _ _ o.deliveries (λ d h. find-append_left _ o.events _ h) w.referenced)
          (All-mono _ _ (fresh n now registered (suc n)) last_found
            (fresh-event n now registered (suc n)));
    sound = All-append _ o.deliveries _ w.sound (fresh-IsSound n now registered (suc n) able);
  }

-- Whatever `publish_event` returns, the outbox that it leaves is well-formed if the one that it was
-- given is and every consumer allows at least one attempt.
pub publish-IsWellFormed :
    (ext : External) (consumers : List EventConsumer) (r : Request) (now : Datetime) (o : Outbox)
    (e : DomainEvent) (o' : Outbox)
    → All MayAttempt consumers
    → IsWellFormed o
    → publish_event ext consumers r now o ≡ ok (e, o')
    → IsWellFormed o'
unfolding consumers_for
publish-IsWellFormed ext consumers r now o e o' able w h =
    by_case (Published-of_publish ext consumers r now o e o' h)
  where
    by_case : Published ext consumers r now o e o' → IsWellFormed o'
    by_case (replayed found same kept) = rw kept w
    by_case (created missing some_consumer e_is o'_is) = rw o'_is (
        inserted-IsWellFormed r now (consumers_for r.event_type consumers) o missing
          (All-filter MayAttempt (λ c. contains c.event_types r.event_type) consumers able) w)
