-- ===== src/Tasks/Cycle/Acyclic.antt =====
-- A dependency that the search lets through closes no cycle.
use foundora_ai.Base.{
  ◌≡◌, ◌⊎◌, inl, inr, subst, List, [], ◌∷◌, ◌++◌, Uuid, false, true, Bool, arith,
}
use foundora_ai.Tasks.Model.{TaskDependency}
use foundora_ai.Tasks.Cycle.{would_create_cycle}
use foundora_ai.Tasks.Cycle.Search.{Among, Reaches, arrived, along}
use foundora_ai.Tasks.Cycle.Reach.{would_create_cycle-Reaches}

-- No dependency can be followed back to the task that has it.
abbrev pub Acyclic : List TaskDependency → Type 0
Acyclic pairs =
    (d : TaskDependency) → Among d pairs → ¬ Reaches pairs d.task_id d.depends_on_task_id

pub Reaches-trans :
    (pairs : List TaskDependency) (y z x : Uuid)
    → Reaches pairs y x
    → Reaches pairs z y
    → Reaches pairs z x
Reaches-trans pairs y z x arrived s = s
Reaches-trans pairs y z x (along d m r) s =
    along d m (Reaches-trans pairs y z d.depends_on_task_id r s)

Among-last : {A : Type 0} (x y : A) (xs : List A) → Among x (xs ++ y ∷ []) → Among x xs ⊎ (x ≡ y)
Among-last x y [] (inl e) = inr e
Among-last x y [] (inr n) = absurd n
Among-last x y (z ∷ zs) (inl e) = inl (inl e)
Among-last x y (z ∷ zs) (inr m) = elim (Among-last x y zs m) [ inl k ↦ inl (inr k) | inr e ↦ inr e ]

module _ (pairs : List TaskDependency) (new : TaskDependency) where
  -- A path in the larger graph uses the new dependency or does not.
  through :
      (z x : Uuid)
      → Reaches (pairs ++ new ∷ []) z x
      → Reaches pairs z x ⊎ Reaches pairs new.task_id x × Reaches pairs z new.depends_on_task_id
  through z x arrived = inl arrived
  through z x (along d m r) = step (Among-last d new pairs m) (through z d.depends_on_task_id r)
    where
      step :
          Among d pairs ⊎ (d ≡ new)
          → Reaches pairs z d.depends_on_task_id
            ⊎ Reaches pairs new.task_id d.depends_on_task_id
              × Reaches pairs z new.depends_on_task_id
          → Reaches pairs z d.task_id
            ⊎ Reaches pairs new.task_id d.task_id × Reaches pairs z new.depends_on_task_id
      step (inl k) (inl old) = inl (along d k old)
      step (inl k) (inr (a, b)) = inr (along d k a, b)
      step (inr e) (inl old) = inr (
        subst (λ (t : TaskDependency). Reaches pairs t.task_id d.task_id) e arrived,
        subst (λ (t : TaskDependency). Reaches pairs z t.depends_on_task_id) e old,
      )
      step (inr e) (inr (a, b)) =
          inr (subst (λ (t : TaskDependency). Reaches pairs t.task_id d.task_id) e arrived, b)

  Acyclic-append :
      Acyclic pairs
      → ¬ Reaches pairs new.task_id new.depends_on_task_id
      → Acyclic (pairs ++ new ∷ [])
  Acyclic-append acyclic uncrossed d m r =
      by_cases (Among-last d new pairs m) (through d.task_id d.depends_on_task_id r)
    where
      by_cases :
          Among d pairs ⊎ (d ≡ new)
          → Reaches pairs d.task_id d.depends_on_task_id
            ⊎ Reaches pairs new.task_id d.depends_on_task_id
              × Reaches pairs d.task_id new.depends_on_task_id
          → ⊥
      by_cases (inl k) (inl old) = acyclic d k old
      by_cases (inl k) (inr (a, b)) =
          uncrossed
            (Reaches-trans pairs d.task_id new.task_id new.depends_on_task_id b (along d k a))
      by_cases (inr e) (inl old) =
          uncrossed
            (subst (λ (t : TaskDependency). Reaches pairs t.task_id t.depends_on_task_id) e old)
      by_cases (inr e) (inr (a, b)) =
          uncrossed
            (subst (λ (t : TaskDependency). Reaches pairs new.task_id t.depends_on_task_id) e a)

  pub Acyclic-of_search :
      Acyclic pairs
      → would_create_cycle new.task_id new.depends_on_task_id pairs ≡ false
      → Acyclic (pairs ++ new ∷ [])
  Acyclic-of_search acyclic h = Acyclic-append acyclic (λ r.
      absurd
        (refuted h ((would_create_cycle-Reaches new.task_id new.depends_on_task_id pairs).1 r)))
    where
      refuted : {b : Bool} → b ≡ false → b ≡ true → ⊥
      refuted f t = ground arith
