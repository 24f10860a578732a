-- ===== src/Memory/Retrieve/Visible.antt =====
-- Which records a retrieval returns, how many, and in which order.
use foundora_ai.Base.{
  ℕ, ◌+◌, ◌≤◌, ◌≡◌, ◌≢◌, ◌⊎◌, inl, inr, refl, sym, ap, subst, ◌∙◌, arith, String, true, false, ◌&&◌,
  ◌==◌, nat_eq, string_eq, option_eq, eq-of_beq, eq_self, List, ok, Uuid, Datetime, Bool-cases,
  ok-injective, All, All-mono, All-sort_by, All-take, length, length-take, filter, filter_holds,
  Sorted, IsOrder, sort_by-Sorted, take-Sorted, sort_by,
}
use foundora_ai.Memory.Model.{
  at_most_total, at_most_trans, MemoryStore, MemoryRecord, MemoryStatus, active, invalidated,
}
use foundora_ai.Memory.Text.{Libraries}
use foundora_ai.Memory.Accept.{is_active, is_unexpired}
use foundora_ai.Memory.Retrieve.{
  Filter, is_one_of, in_scope, is_retrieved, ranks_before, retrieve_memories,
}

-- What a caller may rely on for a record that it is given.
pub record IsVisible (business_id : Uuid) (f : Filter) (at : Datetime) (r : MemoryRecord)
    : Type 0 where
  pub own : r.business_id ≡ business_id
  pub status : r.status ≡ active
  pub unexpired : is_unexpired r.expires_at at ≡ true
  pub of_type : is_one_of f.memory_types r.memory_type ≡ true
  pub of_status : is_one_of f.epistemic_statuses r.epistemic_status ≡ true
  pub scope :
      (r.memory_type ≢ "working")
      ⊎ ((r.execution_type ≡ f.execution_type) × (r.execution_id ≡ f.execution_id))

scope_of :
    (f : Filter) (r : MemoryRecord)
    → in_scope f.execution_type f.execution_id r ≡ true
    → (r.memory_type ≢ "working")
      ⊎ ((r.execution_type ≡ f.execution_type) × (r.execution_id ≡ f.execution_id))
unfolding in_scope
scope_of f r h = elim (Bool-cases (r.memory_type == "working")) [
  | inr f ↦ inl (other f)
  | inl t ↦
      let same : (r.execution_type == f.execution_type && r.execution_id == f.execution_id) ≡ true =
        ground arith in
      inr (
        eq-of_beq r.execution_type f.execution_type (ground arith),
        eq-of_beq r.execution_id f.execution_id (ground arith),
      )
]
  where
    other : {t : String} → (t == "working") ≡ false → t ≢ "working"
    other {t} e same = ground (arith, eq_self t)

IsVisible-of_retrieved :
    (lib : Libraries) (business_id : Uuid) (f : Filter) (at : Datetime) (r : MemoryRecord)
    → is_retrieved lib business_id f at r ≡ true
    → IsVisible business_id f at r
unfolding is_retrieved
IsVisible-of_retrieved lib business_id f at r h = record {
  own = eq-of_beq r.business_id business_id (ground arith);
  status = status_is r.status (ground arith);
  unexpired = ground arith;
  of_type = ground arith;
  of_status = ground arith;
  scope = scope_of f r (ground arith);
}
  where
    status_is : (k : MemoryStatus) → is_active k ≡ true → k ≡ active
    status_is active e = refl
    status_is invalidated e = absurd (ground arith)

ranks_before-IsOrder : IsOrder ranks_before
unfolding ranks_before
ranks_before-IsOrder = record {
  total = λ x y h.
      ground
        (arith, at_most_total x.confidence y.confidence, at_most_total y.confidence x.confidence);
  transitive = λ x y z h k. ground (
    arith,
    at_most_trans x.confidence y.confidence z.confidence,
    at_most_trans y.confidence z.confidence x.confidence,
    at_most_trans z.confidence x.confidence y.confidence,
    at_most_trans z.confidence y.confidence x.confidence,
    at_most_total x.confidence y.confidence,
    at_most_total y.confidence z.confidence,
    at_most_total x.confidence z.confidence,
  );
}

-- A retrieval writes nothing but its reading of the clock. It returns at most `limit` records, by
-- falling confidence and then from the latest change on, and each is of the business, active, not
-- expired at that reading, of an asked type and epistemic status, and, if it is working memory, of the
-- execution that asks.
pub retrieve_memories-IsVisible :
    (lib : Libraries) (business_id : Uuid) (f : Filter) (limit : ℕ) (s s' : MemoryStore)
    (rows : List MemoryRecord)
    → retrieve_memories lib business_id f limit s ≡ ok (rows, s')
    → All (IsVisible business_id f (s.clock s.ticks)) rows
      × (length rows ≤ limit)
      × Sorted ranks_before rows
      × (s' ≡ record s { ticks = s.ticks + 1 })
unfolding retrieve_memories
retrieve_memories-IsVisible lib business_id f limit s s' rows h =
    let at = s.clock s.ticks in
    let visible = filter (is_retrieved lib business_id f at) s.records in
    let (result, state) = ok-injective (retrieve_memories lib business_id f limit s) refl h in
    (
      subst (All (IsVisible business_id f at)) result (
          All-mono (λ r. is_retrieved lib business_id f at r ≡ true) (IsVisible business_id f at) _
            (λ r. IsVisible-of_retrieved lib business_id f at r)
            (All-take _ limit _ (
              All-sort_by _ ranks_before visible
                (filter_holds (is_retrieved lib business_id f at) s.records)))),
      subst (λ xs. length xs ≤ limit) result (length-take limit (sort_by ranks_before visible)),
      subst (Sorted ranks_before) result (
          take-Sorted ranks_before limit (sort_by ranks_before visible)
            (sort_by-Sorted ranks_before visible ranks_before-IsOrder)),
      sym state ∙ ap (λ k. record s { ticks = k }) (omega arith),
    )
