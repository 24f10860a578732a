-- ===== src/Events/Delivery/Redrive.antt =====
-- `redrive`: which deliveries it takes, and what it writes.
use foundora_ai.Base.{
  ℕ, ◌+◌, ◌<◌, ◌≡◌, inl, inr, arith, ap, true, false, Option, some, ok, err, Option-cases, find,
  put, ◌&&◌, ◌==◌, nat_eq, find_sound, find-put_narrow, Uuid, Datetime,
}
use foundora_ai.Events.Contracts.{not_dead_letter}
use foundora_ai.Events.Model.{EventDelivery, Outbox, pending}
use foundora_ai.Events.Delivery.{redrive, redriven, owned_by, is_dead, is_due}

abbrev pub the_delivery : Uuid → Uuid → Outbox → Option EventDelivery
the_delivery business_id delivery_id o =
    find (λ d. d.id == delivery_id && owned_by business_id o.events d) o.deliveries

module _ (business_id delivery_id : Uuid) (expected : ℕ) (now : Datetime) (o : Outbox) where
  pub record Redriven (d' : EventDelivery) (o' : Outbox) : Type 0 where
    pub d : EventDelivery
    pub found : the_delivery business_id delivery_id o ≡ some d
    pub dead : is_dead d.status ≡ true
    pub expected_count : d.redrive_count ≡ expected
    pub row : d' ≡ redriven d now
    pub written : o' ≡ record o { deliveries = put (λ x. x.id == delivery_id) d' o.deliveries }

  pub Redriven-of_ok :
      (d' : EventDelivery) (o' : Outbox)
      → redrive business_id delivery_id expected now o ≡ ok (d', o')
      → Redriven d' o'
  unfolding redrive
  Redriven-of_ok d' o' h = elim (Option-cases (the_delivery business_id delivery_id o)) [
    | inl missing ↦ absurd (ground arith)
    | inr (d, found) ↦ record {
      d = d;
      found = found;
      dead = ground arith;
      expected_count = ground arith;
      row = ground arith;
      written = ground arith;
    }
  ]

found_again :
    (business_id delivery_id : Uuid) (expected : ℕ) (now : Datetime) (o : Outbox)
    (d' : EventDelivery) (o' : Outbox)
    → Redriven business_id delivery_id expected now o d' o'
    → the_delivery business_id delivery_id o' ≡ some d'
found_again business_id delivery_id expected now o d' o' r = rw r.written (
    find-put_narrow (λ x. x.id == delivery_id && owned_by business_id o.events x)
      (λ x. x.id == delivery_id) d' o.deliveries r.d (λ x t. ground arith)
      (rw r.row (find_sound _ o.deliveries r.d r.found)) r.found)

refused :
    (business_id delivery_id : Uuid) (expected : ℕ) (later : Datetime) (o : Outbox)
    (d : EventDelivery)
    → the_delivery business_id delivery_id o ≡ some d
    → is_dead d.status ≡ false
    → redrive business_id delivery_id expected later o ≡ err not_dead_letter
unfolding redrive
refused business_id delivery_id expected later o d found alive = ground arith

-- A successful redrive revives a dead delivery: it is found again as a pending delivery that is due
-- at once if any attempt is allowed, with no attempt counted and its redrive count raised by one. A
-- second redrive that expects the same count as the first is refused, so one redrive is not
-- repeated.
pub redrive_once :
    (business_id delivery_id : Uuid) (expected : ℕ) (now later : Datetime) (o : Outbox)
    (d' : EventDelivery) (o' : Outbox)
    → redrive business_id delivery_id expected now o ≡ ok (d', o')
    → 0 < d'.max_attempts
    → (the_delivery business_id delivery_id o' ≡ some d')
      × (is_due now d' ≡ true)
      × (d'.attempt_count ≡ 0)
      × (d'.redrive_count ≡ expected + 1)
      × (redrive business_id delivery_id expected later o' ≡ err not_dead_letter)
redrive_once business_id delivery_id expected now later o d' o' h able =
    let r = Redriven-of_ok business_id delivery_id expected now o d' o' h in
    let again = found_again business_id delivery_id expected now o d' o' r in
    let status : d'.status ≡ pending = ap (λ (x : EventDelivery). x.status) r.row in
    let at : d'.available_at ≡ now = ap (λ (x : EventDelivery). x.available_at) r.row in
    let none_made : d'.attempt_count ≡ 0 = ap (λ (x : EventDelivery). x.attempt_count) r.row in
    let count : d'.redrive_count ≡ r.d.redrive_count + 1 =
      ap (λ (x : EventDelivery). x.redrive_count) r.row in
    (
      again,
      rw (status, at, none_made) (ground arith),
      none_made,
      omega (arith, count, r.expected_count),
      refused business_id delivery_id expected later o' d' again (rw status),
    )
