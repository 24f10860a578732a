-- ===== src/Tasks/Cycle/Reach.antt =====
-- The search answers whether the new dependency would close a cycle, and a graph that it guards
-- stays free of cycles.
use foundora_ai.Base.{
  ℕ, zero, suc, ◌+◌, ◌<◌, ◌≡◌, ◌≢◌, ◌⊎◌, ◌↔◌, inl, inr, refl, sym, subst, arith, true, false, List,
  [], ◌∷◌, contains, ◌==◌, nat_eq, eq-of_beq, Bool-cases, length, Uuid,
}
use foundora_ai.Tasks.Model.{TaskDependency}
use foundora_ai.Tasks.Cycle.{outgoing, extend, search_from, would_create_cycle}
use foundora_ai.Tasks.Cycle.Search.{
  Among, Reaches, arrived, along, Among-extend, extend-Among, length-extend, contains-Among,
  outgoing-edge, edge-outgoing, weight, weight_nil, weight-cons,
}

module _ (task_id : Uuid) (pairs : List TaskDependency) where
  abbrev Source : List Uuid → Type 0
  Source pending = (x : Uuid) × Among x pending × Reaches pairs task_id x

  from_expanded :
      (current : Uuid) (pending : List Uuid)
      → Source (extend pending (outgoing current pairs))
      → Source (current ∷ pending)
  from_expanded current pending (x, m, r) =
      elim (Among-extend x pending (outgoing current pairs) m) [
        | inr kept ↦ (x, inr kept, r)
        | inl found ↦
            let (d, member, source, target) = outgoing-edge current x pairs found in
            (d.task_id, inl source, along d member (subst (Reaches pairs task_id) (sym target) r))
      ]

  found-Reaches :
      (fuel : ℕ) (pending seen : List Uuid)
      → search_from fuel task_id pairs pending seen ≡ true
      → Source pending
  unfolding search_from
  found-Reaches zero pending seen h = absurd (ground arith)
  found-Reaches (suc fuel) [] seen h = absurd (ground arith)
  found-Reaches (suc fuel) (current ∷ pending) seen h = elim (Bool-cases (current == task_id)) [
    | inl t ↦ (
      current,
      inl refl,
      subst (Reaches pairs task_id) (sym (eq-of_beq current task_id t)) arrived,
    )
    | inr f ↦ elim (Bool-cases (contains seen current)) [
      | inl old ↦
          let (x, m, r) = found-Reaches fuel pending seen (rw (f, old) at h) in (x, inr m, r)
      | inr new ↦ from_expanded current pending (
          found-Reaches fuel (extend pending (outgoing current pairs)) (current ∷ seen)
            (rw (f, new) at h))
    ]
  ]

  -- A set of tasks without the task, which no edge leaves but into `others`.
  record IsClosed (members others : List Uuid) : Type 0 where
    without : (x : Uuid) → Among x members → x ≢ task_id
    closed :
        (x y : Uuid)
        → Among x members
        → Among y (outgoing x pairs)
        → Among y members ⊎ Among y others

  abbrev Explored : List Uuid → List Uuid → Type 0
  Explored pending seen =
      (members : List Uuid) × IsClosed members []
      × ((x : Uuid) → Among x seen ⊎ Among x pending → Among x members)

  skip-IsClosed :
      (current : Uuid) (pending seen : List Uuid)
      → Among current seen
      → IsClosed seen (current ∷ pending)
      → IsClosed seen pending
  skip-IsClosed current pending seen old c = record {
    without = c.without;
    closed = λ x y m e. place y (c.closed x y m e);
  }
    where
      place :
          (y : Uuid)
          → Among y seen ⊎ (y ≡ current) ⊎ Among y pending
          → Among y seen ⊎ Among y pending
      place y (inl m) = inl m
      place y (inr (inl e)) = inl (subst (λ z. Among z seen) (sym e) old)
      place y (inr (inr m)) = inr m

  expand-IsClosed :
      (current : Uuid) (pending seen : List Uuid)
      → current ≢ task_id
      → IsClosed seen (current ∷ pending)
      → IsClosed (current ∷ seen) (extend pending (outgoing current pairs))
  expand-IsClosed current pending seen other c = record { without = without'; closed = closed' }
    where
      without' : (x : Uuid) → (x ≡ current) ⊎ Among x seen → x ≢ task_id
      without' x (inl e) = subst (λ z. z ≢ task_id) (sym e) other
      without' x (inr m) = c.without x m

      place :
          (y : Uuid)
          → Among y seen ⊎ (y ≡ current) ⊎ Among y pending
          → ((y ≡ current) ⊎ Among y seen) ⊎ Among y (extend pending (outgoing current pairs))
      place y (inl m) = inl (inr m)
      place y (inr (inl e)) = inl (inl e)
      place y (inr (inr m)) = inr (extend-Among y pending (outgoing current pairs) (inr m))

      closed' :
          (x y : Uuid)
          → (x ≡ current) ⊎ Among x seen
          → Among y (outgoing x pairs)
          → ((y ≡ current) ⊎ Among y seen) ⊎ Among y (extend pending (outgoing current pairs))
      closed' x y (inl e) edge = inr (
          extend-Among y pending (outgoing current pairs)
            (inl (subst (λ z. Among y (outgoing z pairs)) e edge)))
      closed' x y (inr m) edge = place y (c.closed x y m edge)

  explored :
      (fuel : ℕ) (pending seen : List Uuid)
      → length pending + weight seen pairs < fuel
      → IsClosed seen pending
      → search_from fuel task_id pairs pending seen ≡ false
      → Explored pending seen
  unfolding search_from
  explored zero pending seen enough c h = absurd (ground arith)
  explored (suc fuel) [] seen enough c h = (seen, c, λ x m. elim m [ inl k ↦ k | inr k ↦ absurd k ])
  explored (suc fuel) (current ∷ pending) seen enough c h = elim (Bool-cases (current == task_id)) [
    | inl t ↦ absurd (ground arith)
    | inr f ↦ elim (Bool-cases (contains seen current)) [
      | inl old ↦ skipped old (
          explored fuel pending seen (omega arith)
            (skip-IsClosed current pending seen (contains-Among seen current old) c)
            (rw (f, old) at h))
      | inr new ↦ expanded (
          explored fuel (extend pending (outgoing current pairs)) (current ∷ seen)
            (omega (
              arith,
              weight-cons current seen pairs new,
              length-extend pending (outgoing current pairs),
            ))
            (expand-IsClosed current pending seen (other f) c) (rw (f, new) at h))
    ]
  ]
    where
      other : (current == task_id) ≡ false → current ≢ task_id
      other f e = ground arith

      skipped :
          contains seen current ≡ true → Explored pending seen → Explored (current ∷ pending) seen
      skipped old (members, k, all) = (
        members,
        k,
        λ x m. elim m [
          | inl s ↦ all x (inl s)
          | inr (inl e) ↦
              all x (inl (subst (λ z. Among z seen) (sym e) (contains-Among seen current old)))
          | inr (inr p) ↦ all x (inr p)
        ],
      )

      expanded :
          Explored (extend pending (outgoing current pairs)) (current ∷ seen)
          → Explored (current ∷ pending) seen
      expanded (members, k, all) = (
        members,
        k,
        λ x m. elim m [
          | inl s ↦ all x (inl (inr s))
          | inr (inl e) ↦ all x (inl (inl e))
          | inr (inr p) ↦ all x (inr (extend-Among x pending (outgoing current pairs) (inr p)))
        ],
      )

  closed-unreached :
      (members : List Uuid)
      → IsClosed members []
      → (x : Uuid) → Reaches pairs task_id x
      → ¬ Among x members
  closed-unreached members c _ arrived m = c.without task_id m refl
  closed-unreached members c _ (along d member r) m =
      elim (c.closed d.task_id d.depends_on_task_id m (edge-outgoing d pairs member)) [
        | inl n ↦ closed-unreached members c d.depends_on_task_id r n
        | inr n ↦ absurd n
      ]

-- The search says that a dependency of a task on another would close a cycle exactly when the other
-- task reaches the first along the dependencies that are there: its rounds are always enough.
pub would_create_cycle-Reaches :
    (task_id dependency_id : Uuid) (pairs : List TaskDependency)
    → (would_create_cycle task_id dependency_id pairs ≡ true) ↔ Reaches pairs task_id dependency_id
unfolding would_create_cycle
would_create_cycle-Reaches task_id dependency_id pairs = (forth, back)
  where
    forth :
        search_from (length pairs + 2) task_id pairs (dependency_id ∷ []) [] ≡ true
        → Reaches pairs task_id dependency_id
    forth h =
        let (x, m, r) = found-Reaches task_id pairs (length pairs + 2) (dependency_id ∷ []) [] h in
        elim m [ inl e ↦ subst (Reaches pairs task_id) e r | inr n ↦ absurd n ]

    back :
        Reaches pairs task_id dependency_id
        → search_from (length pairs + 2) task_id pairs (dependency_id ∷ []) [] ≡ true
    back r =
        elim (Bool-cases (search_from (length pairs + 2) task_id pairs (dependency_id ∷ []) [])) [
          | inl t ↦ t
          | inr f ↦
              let (members, c, all) =
                explored task_id pairs (length pairs + 2) (dependency_id ∷ []) []
                  (omega (arith, weight_nil pairs))
                  (record { without = λ x m. absurd m; closed = λ x y m e. absurd m }) f in
              absurd (
                closed-unreached task_id pairs members c dependency_id r
                  (all dependency_id (inr (inl refl))))
        ]
