-- ===== src/Events/Publish/Replay.antt =====
-- The replay of an idempotency key.
use foundora_ai.Base.{
  ◌≡◌, ◌∙◌, arith, true, false, none, some, List, [], ◌∷◌, ok, find, find-append_none, Datetime,
  External, eq_self, nat_eq, string_eq, option_eq, same_object_self, Uuid,
}
use foundora_ai.Events.Contracts.{EventConsumer, consumers_for}
use foundora_ai.Events.Model.{DomainEvent, Outbox}
use foundora_ai.Events.Publish.{
  Request, differs, is_same_key, new_event, publish_event, publish_to, replay_event,
}
use foundora_ai.Events.Publish.Insert.{inserted, Published, replayed, created, Published-of_publish}

-- What is checked before the search depends on the request alone.
later_checks :
    (ext : External) (consumers : List EventConsumer) (r : Request) (now later : Datetime)
    (o o' : Outbox) (x : DomainEvent × Outbox)
    → publish_event ext consumers r now o ≡ ok x
    → publish_event ext consumers r later o'
      ≡ publish_to (consumers_for r.event_type consumers) r later o'
unfolding publish_event
later_checks ext consumers r now later o o' x h = ground arith

found_again :
    (registered : List EventConsumer) (r : Request) (later : Datetime) (o : Outbox)
    (e : DomainEvent)
    → find (is_same_key r) o.events ≡ some e
    → differs r e ≡ false
    → publish_to registered r later o ≡ ok (e, o)
unfolding publish_to replay_event
found_again registered r later o e found same = rw (found, publish_to) (rw same)

pub new_event-is_same_key :
    (r : Request) (now : Datetime) (id : Uuid) → is_same_key r (new_event r now id) ≡ true
unfolding is_same_key new_event
new_event-is_same_key r now id =
    rw (eq_self r.business_id) (rw (eq_self r.event_type) (rw (eq_self r.idempotency_key)))

differs-new_event :
    (r : Request) (now : Datetime) (id : Uuid) → differs r (new_event r now id) ≡ false
unfolding differs new_event
differs-new_event r now id = simp (
  eq_self r.schema_version,
  eq_self r.aggregate_type,
  eq_self r.aggregate_id,
  same_object_self r.payload,
  eq_self r.causation_event_id,
)

pub find-inserted :
    (r : Request) (now : Datetime) (registered : List EventConsumer) (o : Outbox)
    → find (is_same_key r) o.events ≡ none
    → find (is_same_key r) (inserted r now registered o).events ≡ some (new_event r now o.next_uuid)
unfolding inserted
find-inserted r now registered o missing =
    find-append_none (is_same_key r) o.events (new_event r now o.next_uuid ∷ []) missing
    ∙ rw (new_event-is_same_key r now o.next_uuid)

-- A request that was published, and is published again on the outbox that it left, at any later
-- reading of the clock, returns the same event and writes nothing.
pub publish_twice :
    (ext : External) (consumers : List EventConsumer) (r : Request) (now later : Datetime)
    (o : Outbox) (e : DomainEvent) (o' : Outbox)
    → publish_event ext consumers r now o ≡ ok (e, o')
    → publish_event ext consumers r later o' ≡ ok (e, o')
publish_twice ext consumers r now later o e o' h =
    later_checks ext consumers r now later o o' (e, o') h
    ∙ by_case (Published-of_publish ext consumers r now o e o' h)
  where
    by_case :
        Published ext consumers r now o e o'
        → publish_to (consumers_for r.event_type consumers) r later o' ≡ ok (e, o')
    by_case (replayed found same kept) =
        found_again (consumers_for r.event_type consumers) r later o' e (rw kept found) same
    by_case (created missing some_consumer e_is o'_is) =
        found_again (consumers_for r.event_type consumers) r later o' e
          (rw (o'_is, e_is) (find-inserted r now (consumers_for r.event_type consumers) o missing))
          (rw e_is (differs-new_event r now o.next_uuid))
