-- ===== src/Events/Delivery/Lifecycle.antt =====
-- The life of a delivery: the invariant of its row, and what each attempt makes of it.
use Prim.Native.Nat.{◌^◌}
use native.Mathlib.Nat.{pow-suc}
use foundora_ai.Base.{
  ◌-◌, ap, ℕ, zero, suc, ◌+◌, ◌*◌, ◌≤◌, ◌<◌, ◌≡◌, ◌≢◌, ◌⊎◌, arith, true, Option, none, String,
  Datetime, External,
}
use foundora_ai.Events.Contracts.{EventConsumer}
use foundora_ai.Events.Model.{
  DomainEvent, EventDelivery, retry_wait, processing, completed, dead_letter,
}
use foundora_ai.Events.Delivery.{
  Handlers, raised, delivered, rescheduled, dead_lettered, is_claimable, is_due, second,
  retry_delay, attempt, claim, settle, deliver_claimed_event,
}

pub record IsSound (d : EventDelivery) : Type 0 where
  pub positive : 0 < d.max_attempts
  pub within : d.attempt_count ≤ d.max_attempts
  pub claimable : is_claimable d.status ≡ true → d.attempt_count < d.max_attempts
  pub dead_exhausted : d.status ≡ dead_letter → d.attempt_count ≡ d.max_attempts
  pub dead_stamped : d.status ≡ dead_letter → d.dead_lettered_at ≢ none
  pub completed_stamped : d.status ≡ completed → d.completed_at ≢ none
  pub settled : d.status ≢ processing

-- Whatever the handler does, an attempt keeps the row sound: in particular no attempt count passes
-- its maximum and no row is left in `processing`.
pub deliver-IsSound :
    (ext : External) (handler : Handlers) (d : EventDelivery) (event : Option DomainEvent)
    (consumer : Option EventConsumer) (now : Datetime)
    → IsSound d
    → IsSound (deliver_claimed_event ext handler d event consumer now).0
unfolding deliver_claimed_event settle claim
deliver-IsSound ext handler d event consumer now h = ground arith

pub deliver_same :
    (ext : External) (handler : Handlers) (d : EventDelivery) (event : Option DomainEvent)
    (consumer : Option EventConsumer) (now : Datetime)
    → let d' = (deliver_claimed_event ext handler d event consumer now).0 in
      (d'.id ≡ d.id) × (d'.event_id ≡ d.event_id)
unfolding deliver_claimed_event settle claim
deliver_same ext handler d event consumer now = ground arith

one-le-pow : (n : ℕ) → 1 ≤ 2 ^ n
one-le-pow zero = omega arith
one-le-pow (suc n) = omega (arith, pow-suc 2 n, one-le-pow n)

retry_delay_bounds : (n : ℕ) → (second ≤ retry_delay (suc n)) × (retry_delay (suc n) ≤ 300 * second)
unfolding retry_delay
retry_delay_bounds n = omega (arith, one-le-pow n, same)
  where
    same : 2 ^ (suc n - 1) ≡ 2 ^ n
    same = ap (λ k. 2 ^ k) (omega arith)

-- A due delivery uses up one attempt. It ends completed, or dead after its last attempt, or waits
-- for at least one second and at most 300 seconds from now.
pub deliver_due :
    (ext : External) (handler : Handlers) (d : EventDelivery) (event : Option DomainEvent)
    (consumer : Option EventConsumer) (now : Datetime)
    → is_due now d ≡ true
    → let (d', outcome) = deliver_claimed_event ext handler d event consumer now in
      (d'.attempt_count ≡ d.attempt_count + 1)
      × ((outcome ≡ delivered) × (d'.status ≡ completed)
          ⊎ (outcome ≡ dead_lettered)
            × (d'.status ≡ dead_letter)
            × (d'.max_attempts ≤ d'.attempt_count)
          ⊎ (outcome ≡ rescheduled)
            × (d'.status ≡ retry_wait)
            × (d'.attempt_count < d'.max_attempts)
            × (now + second ≤ d'.available_at)
            × (d'.available_at ≤ now + 300 * second))
unfolding deliver_claimed_event settle claim
deliver_due ext handler d event consumer now h = ground (arith, retry_delay_bounds d.attempt_count)

-- The repeated attempts on a delivery, each at the time that it becomes due.
unfoldable pub deliver_repeatedly :
    External
    → Handlers
    → Option DomainEvent
    → Option EventConsumer
    → ℕ
    → EventDelivery
    → EventDelivery
deliver_repeatedly ext handler event consumer zero d = d
deliver_repeatedly ext handler event consumer (suc k) d =
    deliver_repeatedly ext handler event consumer k
      (deliver_claimed_event ext handler d event consumer d.available_at).0

fail_step :
    (ext : External) (handler : Handlers) (event : Option DomainEvent)
    (consumer : Option EventConsumer) (name : String)
    → attempt ext handler event consumer ≡ raised name
    → (d : EventDelivery) → is_claimable d.status ≡ true
    → d.attempt_count < d.max_attempts
    → let d' = (deliver_claimed_event ext handler d event consumer d.available_at).0 in
      (d'.attempt_count ≡ d.attempt_count + 1)
      × (d'.max_attempts ≡ d.max_attempts)
      × (d.attempt_count + 1 < d.max_attempts → d'.status ≡ retry_wait)
      × (d.attempt_count + 1 ≡ d.max_attempts → d'.status ≡ dead_letter)
unfolding deliver_claimed_event settle claim
fail_step ext handler event consumer name fails d c left =
    rw fails (ground arith, ground arith, λ h. ground arith, λ h. ground arith)

-- From a claimable delivery that has k + 1 attempts left, a handler that fails every time sends it
-- to the dead letters by the (k + 1)-st attempt, and not before.
pub deliver_repeatedly-dead :
    (ext : External) (handler : Handlers) (event : Option DomainEvent)
    (consumer : Option EventConsumer) (name : String)
    → attempt ext handler event consumer ≡ raised name
    → (k : ℕ) (d : EventDelivery) → is_claimable d.status ≡ true
    → d.attempt_count + suc k ≡ d.max_attempts
    → ((deliver_repeatedly ext handler event consumer (suc k) d).status ≡ dead_letter)
      × ((deliver_repeatedly ext handler event consumer k d).status ≢ dead_letter)
unfolding deliver_repeatedly
deliver_repeatedly-dead ext handler event consumer name fails zero d c left =
    let step = fail_step ext handler event consumer name fails d c (omega arith) in
    (step.3 (omega arith), λ e. ground arith)
deliver_repeatedly-dead ext handler event consumer name fails (suc k) d c left =
    let step = fail_step ext handler event consumer name fails d c (omega arith) in
    deliver_repeatedly-dead ext handler event consumer name fails k
      (deliver_claimed_event ext handler d event consumer d.available_at).0
      (rw (step.2 (omega arith))) (omega arith)
