-- ===== src/Events/Publish/Insert.antt =====
-- What `publish_event` writes when no event has the key yet.
use foundora_ai.Base.{
  suc, ◌≤◌, ◌+◌, ◌≡◌, ap, arith, false, none, some, List, [], ◌∷◌, ◌++◌, Result, ok, length, find,
  is_nil, Uuid, Datetime, External, nat_eq, string_eq, Option-cases, Bool-cases, inl, inr,
}
use mathlib.Core.List.{append_assoc, append-nil}
use native.Mathlib.Nat.{add-zero}
use foundora_ai.Events.Contracts.{EventConsumer, EventError, consumers_for}
use foundora_ai.Events.Model.{DomainEvent, EventDelivery, Outbox}
use foundora_ai.Events.Publish.{
  Request, differs, is_same_key, new_event, new_delivery, add_deliveries, insert_event,
  publish_event, publish_to, replay_event,
}

-- The deliveries that `add_deliveries` appends, from the number that it starts at.
unfoldable pub fresh : Uuid → Datetime → List EventConsumer → Uuid → List EventDelivery
fresh event_id now [] id = []
fresh event_id now (c ∷ cs) id = new_delivery event_id now c id ∷ fresh event_id now cs (suc id)

pub add_deliveries_lem :
    (event_id : Uuid) (now : Datetime) (cs : List EventConsumer) (o : Outbox)
    → add_deliveries event_id now cs o ≡ record o {
      deliveries = o.deliveries ++ fresh event_id now cs o.next_uuid;
      next_uuid = o.next_uuid + length cs;
    }
unfolding add_deliveries fresh
add_deliveries_lem event_id now [] o = rw (append-nil, add-zero)
add_deliveries_lem event_id now (c ∷ cs) o = rw (add_deliveries_lem event_id now cs) (
    rw append_assoc (
      ap
        (λ n. record o {
          deliveries = o.deliveries ++ fresh event_id now (c ∷ cs) o.next_uuid;
          next_uuid = n;
        })
        (omega arith)))

-- The outbox after the insertion.
unfoldable pub inserted : Request → Datetime → List EventConsumer → Outbox → Outbox
inserted r now registered o = record {
  events = o.events ++ new_event r now o.next_uuid ∷ [];
  deliveries = o.deliveries ++ fresh o.next_uuid now registered (suc o.next_uuid);
  next_uuid = suc o.next_uuid + length registered;
}

pub insert_event_lem :
    (r : Request) (now : Datetime) (registered : List EventConsumer) (o : Outbox)
    → insert_event r now registered o
      ≡ ok (new_event r now o.next_uuid, inserted r now registered o)
unfolding insert_event inserted new_event
insert_event_lem r now registered o =
    ap {B = Result EventError (DomainEvent × Outbox)} (λ s. ok (new_event r now o.next_uuid, s))
      (add_deliveries_lem o.next_uuid now registered (record o {
        events = o.events ++ new_event r now o.next_uuid ∷ [];
        next_uuid = suc o.next_uuid;
      }))

module _ (ext : External) (consumers : List EventConsumer) (r : Request) (now : Datetime)
    (o : Outbox) (e : DomainEvent) (o' : Outbox) where
  -- The two ways in which `publish_event` returns.
  pub data Published : Type 0 where
    replayed : find (is_same_key r) o.events ≡ some e → differs r e ≡ false → o' ≡ o → Published
    created :
        find (is_same_key r) o.events ≡ none
        → is_nil (consumers_for r.event_type consumers) ≡ false
        → e ≡ new_event r now o.next_uuid
        → o' ≡ inserted r now (consumers_for r.event_type consumers) o
        → Published

  by_search :
      is_nil (consumers_for r.event_type consumers) ≡ false
      → publish_to (consumers_for r.event_type consumers) r now o ≡ ok (e, o')
      → Published
  unfolding publish_to replay_event
  by_search some_consumer h = elim (Option-cases (find (is_same_key r) o.events)) [
    | inl missing ↦
        let h' : insert_event r now (consumers_for r.event_type consumers) o ≡ ok (e, o') =
          rw (missing, publish_to) at h in
        let e' = insert_event_lem r now (consumers_for r.event_type consumers) o in
        created missing some_consumer (cc e') (cc e')
    | inr (old, found) ↦ elim (Bool-cases (differs r old)) [
      | inl bad ↦ absurd (ground arith)
      | inr same ↦
          let old_e : old ≡ e = ground arith in
          replayed (rw found (ap some old_e)) (rw (← old_e) same) (ground arith)
    ]
  ]

  pub Published-of_publish : publish_event ext consumers r now o ≡ ok (e, o') → Published
  unfolding publish_event
  Published-of_publish h = by_search (ground arith) (ground arith)

  -- No id is drawn twice.
  pub publish_event-later :
      publish_event ext consumers r now o ≡ ok (e, o') → o.next_uuid ≤ o'.next_uuid
  unfolding inserted
  publish_event-later h = elim (Published-of_publish h) [
    | replayed found same kept ↦ rw kept (omega arith)
    | created missing some_consumer e_is o'_is ↦ rw o'_is (omega arith)
  ]
