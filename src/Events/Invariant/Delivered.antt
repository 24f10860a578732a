-- ===== src/Events/Invariant/Delivered.antt =====
-- A round of the dispatcher and a redrive keep the outbox well-formed.
use foundora_ai.Base.{
  ℕ, ◌<◌, ◌≡◌, sym, ◌∙◌, subst, arith, some, List, ok, All-put, All-find, Distinct-put, put, find,
  ◌==◌, nat_eq, string_eq, eq-of_beq, find_sound, ap, ◌&&◌, Uuid, Datetime, External,
}
use foundora_ai.Events.Contracts.{EventConsumer}
use foundora_ai.Events.Model.{EventDelivery, Outbox}
use foundora_ai.Events.Delivery.{
  Handlers, deliver_claimed_event, dispatch_to, next_delivery, redrive, redriven, owned_by,
}
use foundora_ai.Events.Delivery.Lifecycle.{IsSound, deliver-IsSound, deliver_same}
use foundora_ai.Events.Delivery.Dispatch.{All-next_delivery}
use foundora_ai.Events.Delivery.Redrive.{Redriven-of_ok}
use foundora_ai.Events.Invariant.{Refers, IsWellFormed}

-- What a write of a delivery may change: its id and event stay, and the new row is sound.
record Rewrites (d d' : EventDelivery) : Type 0 where
  same_id : d'.id ≡ d.id
  same_event : d'.event_id ≡ d.event_id
  sound : IsSound d'

put-IsWellFormed :
    (o : Outbox) (d d' : EventDelivery)
    → IsWellFormed o
    → d.id < o.next_uuid
    → Refers o.events d
    → Rewrites d d'
    → IsWellFormed (record o { deliveries = put (λ x. x.id == d.id) d' o.deliveries })
put-IsWellFormed o d d' w fresh refers h = record {
  event_ids = w.event_ids;
  delivery_ids = All-put _ (λ x. x.id == d.id) d' o.deliveries (rw h.same_id fresh) w.delivery_ids;
  distinct_keys = w.distinct_keys;
  distinct_events = w.distinct_events;
  distinct_deliveries =
      Distinct-put (λ x. x.id) (λ x. x.id == d.id) d' o.deliveries
        (λ x t. eq-of_beq x.id d.id t ∙ sym h.same_id) w.distinct_deliveries;
  referenced =
      All-put (Refers o.events) (λ x. x.id == d.id) d' o.deliveries (rw h.same_event refers)
        w.referenced;
  sound = All-put IsSound (λ x. x.id == d.id) d' o.deliveries h.sound w.sound;
}

pub dispatch_to-IsWellFormed :
    (ext : External) (handler : Handlers) (consumers : List EventConsumer) (now : Datetime)
    (o : Outbox) (d : EventDelivery)
    → IsWellFormed o
    → next_delivery now o.deliveries ≡ some d
    → IsWellFormed (dispatch_to ext handler consumers now o d).0
unfolding dispatch_to
dispatch_to-IsWellFormed ext handler consumers now o d w found =
    let event = find (λ e. e.id == d.event_id) o.events in
    let consumer = find (λ c. c.name == d.consumer_name) consumers in
    let same = deliver_same ext handler d event consumer now in
    put-IsWellFormed o d (deliver_claimed_event ext handler d event consumer now).0 w
      (All-next_delivery _ now o.deliveries d w.delivery_ids found).0
      (All-next_delivery (Refers o.events) now o.deliveries d w.referenced found).0
      (record {
        same_id = same.0;
        same_event = same.1;
        sound =
            deliver-IsSound ext handler d event consumer now
              (All-next_delivery IsSound now o.deliveries d w.sound found).0;
      })

redriven-IsSound : (d : EventDelivery) (now : Datetime) → IsSound d → IsSound (redriven d now)
redriven-IsSound d now h = ground arith

pub redrive-IsWellFormed :
    (business_id delivery_id : Uuid) (expected : ℕ) (now : Datetime) (o : Outbox)
    (d' : EventDelivery) (o' : Outbox)
    → IsWellFormed o
    → redrive business_id delivery_id expected now o ≡ ok (d', o')
    → IsWellFormed o'
redrive-IsWellFormed business_id delivery_id expected now o d' o' w h =
    let r = Redriven-of_ok business_id delivery_id expected now o d' o' h in
    let q = λ (x : EventDelivery). x.id == delivery_id && owned_by business_id o.events x in
    let same : r.d.id ≡ delivery_id =
      eq-of_beq r.d.id delivery_id (ground (arith, find_sound q o.deliveries r.d r.found)) in
    let kept =
      put-IsWellFormed o r.d d' w (All-find _ q o.deliveries r.d w.delivery_ids r.found)
        (All-find (Refers o.events) q o.deliveries r.d w.referenced r.found)
        (record {
          same_id = ap (λ (x : EventDelivery). x.id) r.row;
          same_event = ap (λ (x : EventDelivery). x.event_id) r.row;
          sound =
              rw r.row
                (redriven-IsSound r.d now (All-find IsSound q o.deliveries r.d w.sound r.found));
        }) in
    rw r.written (
      subst (λ k. IsWellFormed (record o { deliveries = put (λ x. x.id == k) d' o.deliveries }))
        same kept)
