-- ===== src/Memory/Invalidated.antt =====
-- An invalidation of a record is final (memory/service.py).
use foundora_ai.Base.{
  ℕ, ◌+◌, ◌<◌, ◌≡◌, refl, sym, ap, subst, ◌∙◌, arith, String, Bool, false, ◌&&◌, ◌||◌, not, ◌==◌,
  ◌!=◌, nat_eq, string_eq, some, List, ok, err, put, find, find-put_scoped, All, All-find, Distinct,
  Uuid, row-IsClosed, closed-put, keys_of_found,
}
use foundora_ai.Business.{AuthContext, Business, resolve_selected_business}
use foundora_ai.Events.Contracts.{EventConsumer}
use foundora_ai.Memory.Model.{MemoryStore, MemoryRecord, invalidated, memory_changed}
use foundora_ai.Memory.Text.{Libraries, check_reason}
use foundora_ai.Memory.Session.{selected_business}
use foundora_ai.Memory.Accept.{is_active}
use foundora_ai.Memory.Accept.Written.{announce-Unchanged}
use foundora_ai.Memory.Decide.{invalidated_record, write_invalidation, find_record, invalidate}
use foundora_ai.Memory.Runs.{Invalidation-of_invalidate}
use foundora_ai.Memory.Histories.{Reach, reached}
use foundora_ai.Memory.Lasting.Records.{IsInvalidated, IsInvalidated-IsKept}

at_revision : (expected k : ℕ) (b : Bool) → (not b || k != expected) ≡ false → k ≡ expected
at_revision expected k b e = ground arith

IsInvalidated-of_write :
    (lib : Libraries) (consumers : List EventConsumer) (id business_id : Uuid) (r : MemoryRecord)
    (reason : String) (s s' : MemoryStore) (x : MemoryRecord)
    → Distinct (λ (y : MemoryRecord). y.id) s.records
    → All (λ (y : MemoryRecord). y.id < s.outbox.next_uuid) s.records
    → find (λ y. y.id == id && y.business_id == business_id) s.records ≡ some r
    → write_invalidation lib consumers r reason s ≡ ok (x, s')
    → (x ≡ invalidated_record r reason (s.clock s.ticks)) × IsInvalidated id business_id s'
unfolding write_invalidation invalidated_record
IsInvalidated-of_write lib consumers id business_id r reason s s' x distinct old found h =
    let (result, u) = announce-Unchanged lib consumers _ _ x _ s' h in
    let (same, owner) =
      keys_of_found (λ (y : MemoryRecord). y.id) (λ y. y.business_id) id business_id s.records r
        found in
    let before =
      All-find (λ (y : MemoryRecord). y.id < s.outbox.next_uuid) _ s.records r old found in
    let le = u.later in
    let w : MemoryRecord = invalidated_record r reason (s.clock s.ticks) in
    (
      result,
      record {
        row = w;
        found =
            ap (find (λ y. y.id == id && y.business_id == business_id)) u.records
            ∙ find-put_scoped (λ (y : MemoryRecord). y.id) (λ (y : MemoryRecord). y.business_id) id
                business_id w s.records r refl refl found;
        of_key = same;
        rows =
            subst (All (λ (y : MemoryRecord). y.id ≡ id → is_active y.status ≡ false))
              (sym (u.records ∙ ap (λ k. put (λ (y : MemoryRecord). y.id == k) w s.records) same))
              (closed-put (λ (y : MemoryRecord). y.id) (λ y. is_active y.status) id w s.records refl
                distinct);
        old = omega (arith, same);
      },
    )

refused :
    (lib : Libraries) (consumers : List EventConsumer) (context : AuthContext) (id : Uuid)
    (later : ℕ) (reason normalized : String) (t : MemoryStore) (b : Business)
    → IsInvalidated id b.id t
    → resolve_selected_business t.directory context ≡ some b
    → check_reason lib "Invalidation reason" reason ≡ ok normalized
    → invalidate lib consumers context id later reason t ≡ err memory_changed
unfolding invalidate find_record selected_business
refused lib consumers context id later reason normalized t b c known reasoned =
    let closed =
      row-IsClosed (λ (y : MemoryRecord). y.id) (λ y. is_active y.status)
        (λ y. y.id == id && y.business_id == b.id) id t.records t.outbox.next_uuid c in
    rw (reasoned, known, c.found, closed) refl

-- An invalidation that succeeds leaves the record invalidated, one revision above the expected one and
-- stamped with the time of its change. In every state that the service reaches afterwards by policy
-- changes, proposals, decisions and invalidations, an invalidation of the record by any session of the
-- same business, at any revision, whose reason is well formed, is refused as changed. Before the
-- invalidation the ids of the records are distinct and lie below the next one.
pub invalidate_once :
    (lib : Libraries) (consumers : List EventConsumer) (context other : AuthContext) (id : Uuid)
    (expected later : ℕ) (reason reason' normalized : String) (s s' t : MemoryStore)
    (x : MemoryRecord) (b : Business)
    → Distinct (λ (y : MemoryRecord). y.id) s.records
    → All (λ (y : MemoryRecord). y.id < s.outbox.next_uuid) s.records
    → invalidate lib consumers context id expected reason s ≡ ok (x, s')
    → Reach lib consumers s' t
    → resolve_selected_business t.directory other ≡ some b
    → b.id ≡ x.business_id
    → check_reason lib "Invalidation reason" reason' ≡ ok normalized
    → (x.current_revision ≡ expected + 1)
      × (x.status ≡ invalidated)
      × (x.invalidated_at ≡ some x.updated_at)
      × (invalidate lib consumers other id later reason' t ≡ err memory_changed)
unfolding invalidated_record
invalidate_once lib consumers context other id expected later reason reason' normalized s s' t x b
      distinct old h steps known owner reasoned =
    let d = Invalidation-of_invalidate lib consumers context id expected reason s s' x h in
    let (same, scope) =
      keys_of_found (λ (y : MemoryRecord). y.id) (λ y. y.business_id) id d.business.id s.records
        d.entry d.found in
    let (result, ended) =
      IsInvalidated-of_write lib consumers id d.business.id d.entry d.normalized s s' x distinct old
        d.found d.written in
    let at_end =
      reached lib consumers (IsInvalidated id d.business.id)
        (IsInvalidated-IsKept id d.business.id lib consumers) s' t ended steps in
    (
      ap (λ (y : MemoryRecord). y.current_revision) result
          ∙ ap (λ k. k + 1)
              (at_revision expected d.entry.current_revision (is_active d.entry.status) d.current),
      ap (λ (y : MemoryRecord). y.status) result,
      ap (λ (y : MemoryRecord). y.invalidated_at) result
          ∙ ap (λ (y : MemoryRecord). some y.updated_at) (sym result),
      refused lib consumers other id later reason' normalized t b
          (subst (λ k. IsInvalidated id k t)
            (sym (owner ∙ ap (λ (y : MemoryRecord). y.business_id) result ∙ scope)) at_end)
          known reasoned,
    )
