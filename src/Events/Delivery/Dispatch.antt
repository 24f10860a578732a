-- ===== src/Events/Delivery/Dispatch.antt =====
-- The dispatch loop: which delivery a round takes, and what the summary counts.
use mathlib.Core.List.{Memᴰ}
use mathlib.Core.Option.{some-injective}
use foundora_ai.Events.Delivery.Lifecycle.{deliver_due}
use foundora_ai.Base.{
  ℕ, zero, suc, ◌+◌, ◌≡◌, ◌⊎◌, inl, inr, sym, ap, subst, arith, true, false, none, some, List, [],
  ◌∷◌, nat_eq, string_eq, ◌==◌, All, All-filter, filter_holds, filter, find, All-of_filter, All-Mem,
  Bool-cases, Option-cases, Datetime, External, if◌then◌else◌,
}
use foundora_ai.Events.Contracts.{EventConsumer}
use foundora_ai.Events.Model.{EventDelivery, Outbox}
use foundora_ai.Events.Delivery.{
  Handlers, is_due, comes_before, earliest, first_of_order, next_delivery, dispatch_to,
  dispatch_one, dispatch_pending_events, Summary, tally,
}

All-earliest {ℓ} :
    (P : EventDelivery → Type ℓ) (best : EventDelivery) (ds : List EventDelivery)
    → P best
    → All P ds
    → P (earliest best ds)
unfolding earliest
All-earliest P best [] pb h = pb
All-earliest P best (d ∷ ds) pb h = elim (Bool-cases (comes_before d best)) [
  | inl t ↦ rw t (All-earliest P d ds h.0 h.1)
  | inr f ↦ rw f (All-earliest P best ds pb h.1)
]

-- What holds of every row and of the due ones holds of the row that is chosen.
pub All-next_delivery {ℓ} :
    (P : EventDelivery → Type ℓ) (now : Datetime) (ds : List EventDelivery) (d : EventDelivery)
    → All P ds
    → next_delivery now ds ≡ some d
    → P d × (is_due now d ≡ true)
unfolding next_delivery earliest
All-next_delivery P now ds d h found =
    chosen (filter (is_due now) ds) (All-filter P (is_due now) ds h) (filter_holds (is_due now) ds)
      found
  where
    chosen :
        (due : List EventDelivery)
        → All P due
        → All (λ x. is_due now x ≡ true) due
        → first_of_order due ≡ some d
        → P d × (is_due now d ≡ true)
    chosen [] hp hd e = absurd (ground arith)
    chosen (x ∷ xs) hp hd e =
        let same : earliest x xs ≡ d = ground arith in
        rw (← same)
          (All-earliest P x xs hp.0 hp.1, All-earliest (λ x. is_due now x ≡ true) x xs hd.0 hd.1)

not_before_of_lt :
    (a b e : EventDelivery)
    → comes_before a e ≡ false
    → comes_before a b ≡ true
    → comes_before b e ≡ false
not_before_of_lt a b e h k = ground arith

not_before_trans :
    (a b e : EventDelivery)
    → comes_before a b ≡ false
    → comes_before b e ≡ false
    → comes_before a e ≡ false
not_before_trans a b e h k = ground arith

not_before_self : (a : EventDelivery) → comes_before a a ≡ false
not_before_self a = ground arith

earliest_take :
    (best d : EventDelivery) (ds : List EventDelivery)
    → comes_before d best ≡ true
    → earliest best (d ∷ ds) ≡ earliest d ds
unfolding earliest
earliest_take best d ds t = ap (λ b. earliest (if b then d else best) ds) t

earliest_keep :
    (best d : EventDelivery) (ds : List EventDelivery)
    → comes_before d best ≡ false
    → earliest best (d ∷ ds) ≡ earliest best ds
unfolding earliest
earliest_keep best d ds f = ap (λ b. earliest (if b then d else best) ds) f

earliest_first :
    (best : EventDelivery) (ds : List EventDelivery)
    → All (λ d. comes_before d (earliest best ds) ≡ false) (best ∷ ds)
earliest_first best [] = unfold earliest in (not_before_self best, tt)
earliest_first best (d ∷ ds) = elim (Bool-cases (comes_before d best)) [
  | inl t ↦
      let ih = earliest_first d ds in
      subst (λ e. All (λ x. comes_before x e ≡ false) (best ∷ d ∷ ds))
        (sym (earliest_take best d ds t))
        (not_before_of_lt d best (earliest d ds) ih.0 t, (ih.0, ih.1))
  | inr f ↦
      let ih = earliest_first best ds in
      subst (λ e. All (λ x. comes_before x e ≡ false) (best ∷ d ∷ ds))
        (sym (earliest_keep best d ds f))
        (ih.0, (not_before_trans d best (earliest best ds) f ih.0, ih.1))
]

-- A round takes one of the deliveries that are due, and no delivery that is due comes before it.
pub next_delivery_earliest :
    (now : Datetime) (ds : List EventDelivery) (d : EventDelivery)
    → next_delivery now ds ≡ some d
    → Memᴰ d ds
      × (is_due now d ≡ true)
      × All (λ x. is_due now x ≡ true → comes_before x d ≡ false) ds
unfolding earliest
next_delivery_earliest now ds d found =
    let (member, due) = All-next_delivery (λ x. Memᴰ x ds) now ds d (All-Mem ds) found in
    (
      member,
      due,
      All-of_filter _ (is_due now) ds
          (first (filter (is_due now) ds) (unfold next_delivery in found)),
    )
  where
    first :
        (due : List EventDelivery)
        → first_of_order due ≡ some d
        → All (λ x. comes_before x d ≡ false) due
    first [] e = tt
    first (x ∷ xs) e =
        subst (λ y. All (λ x. comes_before x y ≡ false) (x ∷ xs)) (some-injective _ _ e)
          (earliest_first x xs)

next_delivery-none :
    (now : Datetime) (ds : List EventDelivery)
    → next_delivery now ds ≡ none
    → All (λ d. is_due now d ≡ false) ds
unfolding next_delivery
next_delivery-none now [] h = tt
next_delivery-none now (d ∷ ds) h = elim (Bool-cases (is_due now d)) [
  | inl t ↦ absurd (ground arith)
  | inr f ↦ (f, next_delivery-none now ds (rw f at h))
]

abbrev pub total : Summary → ℕ
total s = s.completed_count + s.retry_scheduled + s.dead_letters

total-tally :
    (ext : External) (handler : Handlers) (consumers : List EventConsumer) (now : Datetime)
    (o : Outbox) (d : EventDelivery) (s : Summary)
    → is_due now d ≡ true
    → total (tally (dispatch_to ext handler consumers now o d).1 s) ≡ total s + 1
unfolding dispatch_to
total-tally ext handler consumers now o d s due = ground (
  arith,
  deliver_due ext handler d (find (λ e. e.id == d.event_id) o.events)
      (find (λ c. c.name == d.consumer_name) consumers) now due,
)

module _ (ext : External) (handler : Handlers) (consumers : List EventConsumer)
    (clock : ℕ → Datetime) where
  round_none :
      (limit : ℕ) (o : Outbox) (s : Summary)
      → next_delivery (clock limit) o.deliveries ≡ none
      → dispatch_pending_events ext handler consumers clock (suc limit) o s ≡ (o, s)
  unfolding dispatch_pending_events dispatch_one
  round_none limit o s h = rw (h, dispatch_pending_events, dispatch_one)

  round_some :
      (limit : ℕ) (o : Outbox) (s : Summary) (d : EventDelivery)
      → next_delivery (clock limit) o.deliveries ≡ some d
      → let (o', outcome) = dispatch_to ext handler consumers (clock limit) o d in
        dispatch_pending_events ext handler consumers clock (suc limit) o s
        ≡ dispatch_pending_events ext handler consumers clock limit o' (tally outcome s)
  unfolding dispatch_pending_events dispatch_one
  round_some limit o s d h = rw (h, dispatch_pending_events, dispatch_one)

-- The summary counts each delivery that a run attempted. A run of at most `limit` rounds attempts
-- `limit` deliveries, or fewer and then no delivery of the outbox that it leaves is due at the time
-- of its last round.
pub dispatch_accounts :
    (ext : External) (handler : Handlers) (consumers : List EventConsumer) (clock : ℕ → Datetime)
    (limit : ℕ) (o : Outbox) (s : Summary)
    → let (o', s') = dispatch_pending_events ext handler consumers clock limit o s in
      (total s' ≡ total s + limit)
      ⊎ ((k : ℕ) × (total s' + suc k ≡ total s + limit)
          × All (λ d. is_due (clock k) d ≡ false) o'.deliveries)
dispatch_accounts ext handler consumers clock zero o s =
    unfold dispatch_pending_events in inl (omega arith)
dispatch_accounts ext handler consumers clock (suc limit) o s =
    elim (Option-cases (next_delivery (clock limit) o.deliveries)) [
      | inl nothing ↦
          rw (round_none ext handler consumers clock limit o s nothing)
            (inr (limit, omega arith, next_delivery-none (clock limit) o.deliveries nothing))
      | inr (d, found) ↦
          let due =
            (All-next_delivery (λ x. Memᴰ x o.deliveries) (clock limit) o.deliveries d
              (All-Mem o.deliveries) found).1 in
          let (o', outcome) = dispatch_to ext handler consumers (clock limit) o d in
          let counted = total-tally ext handler consumers (clock limit) o d s due in
          rw (round_some ext handler consumers clock limit o s d found) (
            later o' (tally outcome s) counted
              (dispatch_accounts ext handler consumers clock limit o' (tally outcome s)))
    ]
  where
    later :
        (o' : Outbox) (t : Summary)
        → total t ≡ total s + 1
        → (let (p, q) = dispatch_pending_events ext handler consumers clock limit o' t in
            (total q ≡ total t + limit)
            ⊎ ((k : ℕ) × (total q + suc k ≡ total t + limit)
                × All (λ d. is_due (clock k) d ≡ false) p.deliveries))
        → (let (p, q) = dispatch_pending_events ext handler consumers clock limit o' t in
            (total q ≡ total s + suc limit)
            ⊎ ((k : ℕ) × (total q + suc k ≡ total s + suc limit)
                × All (λ d. is_due (clock k) d ≡ false) p.deliveries))
    later o' t e (inl h) = inl (omega arith)
    later o' t e (inr (k, h, none_due)) = inr (k, omega arith, none_due)
