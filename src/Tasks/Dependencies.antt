-- ===== src/Tasks/Dependencies.antt =====
-- What `add_dependency` leaves of the dependency graph.
use foundora_ai.Base.{
  ◌≡◌, inl, inr, refl, ap, subst, arith, false, List, [], ◌∷◌, ◌++◌, ok, Option-cases, Bool-cases,
  ok-injective, External, Uuid, find, ◌==◌, ◌&&◌, pure, if◌then◌else◌, nat_eq,
}
use foundora_ai.Business.{AuthContext, resolve_selected_business}
use foundora_ai.Tasks.Model.{is_mutable, Task, TaskDependency, Workspace}
use foundora_ai.Tasks.Cycle.{would_create_cycle}
use foundora_ai.Tasks.Cycle.Acyclic.{Acyclic, Acyclic-of_search}
use foundora_ai.Tasks.Service.{
  selected_business, find_task, add_event, write_link, link, is_pair, is_some, add_dependency,
}

-- The rows that a run of `add_dependency` leaves.
data Linked (before : List TaskDependency) : List TaskDependency → Type 0 where
  kept : Linked before before
  extended :
      (new : TaskDependency)
      → would_create_cycle new.task_id new.depends_on_task_id before ≡ false
      → Linked before (before ++ new ∷ [])

module _ (ext : External) (context : AuthContext) (s s' : Workspace) (x : Task) where
  Linked-of_write :
      (task dependency : Task)
      → would_create_cycle task.id dependency.id s.dependencies ≡ false
      → write_link ext context task dependency s ≡ ok (x, s')
      → Linked s.dependencies s'.dependencies
  unfolding write_link add_event
  Linked-of_write task dependency f h =
      let (result, state) = ok-injective (write_link ext context task dependency s) refl h in
      subst (Linked s.dependencies) (ap (λ (t : Workspace). t.dependencies) state) (
        extended
          (record {
            task_id = task.id;
            depends_on_task_id = dependency.id;
            created_at = s.clock s.ticks;
          })
          f)

  Linked-of_link :
      (task dependency : Task)
      → link ext context task dependency s ≡ ok (x, s')
      → Linked s.dependencies s'.dependencies
  unfolding link
  Linked-of_link task dependency h =
      elim (Bool-cases (would_create_cycle task.id dependency.id s.dependencies)) [
        | inl t ↦ absurd (ground arith)
        | inr f ↦ Linked-of_write task dependency f (rw f at h)
      ]

  find_task-keeps :
      (business_id task_id : Uuid) (s1 : Workspace) (t : Task)
      → find_task business_id task_id s ≡ ok (t, s1)
      → s1 ≡ s
  unfolding find_task
  find_task-keeps business_id task_id s1 t h = ground arith

  Linked-of_pairs :
      (task dependency : Task)
      → (if is_some (find (is_pair task.id dependency.id) s.dependencies)
            then pure task
            else link ext context task dependency)
          s
        ≡ ok (x, s')
      → Linked s.dependencies s'.dependencies
  Linked-of_pairs task dependency h =
      elim (Bool-cases (is_some (find (is_pair task.id dependency.id) s.dependencies))) [
        | inl t ↦
            let (result, state) = ok-injective (pure task s) refl (rw t at h) in
            subst (Linked s.dependencies) (ap (λ (t : Workspace). t.dependencies) state) kept
        | inr f ↦ Linked-of_link task dependency (rw f at h)
      ]

Acyclic-of_Linked :
    (before after : List TaskDependency) → Linked before after → Acyclic before → Acyclic after
Acyclic-of_Linked before _ kept h = h
Acyclic-of_Linked before _ (extended new f) h = Acyclic-of_search before new h f

-- A graph of dependencies without cycles has none after a dependency is added, or was there already.
pub add_dependency-Acyclic :
    (ext : External) (context : AuthContext) (task_id depends_on : Uuid) (s s' : Workspace)
    (x : Task)
    → Acyclic s.dependencies
    → add_dependency ext context task_id depends_on s ≡ ok (x, s')
    → Acyclic s'.dependencies
unfolding add_dependency selected_business find_task
add_dependency-Acyclic ext context task_id depends_on s s' x acyclic h =
    elim (Option-cases (resolve_selected_business s.directory context)) [
      | inl missing ↦ absurd (ground arith)
      | inr (b, found) ↦
          elim (Option-cases (find (λ t. t.id == task_id && t.business_id == b.id) s.tasks)) [
            | inl missing ↦ absurd (ground arith)
            | inr (t, first) ↦
                elim (Option-cases
                  (find (λ t. t.id == depends_on && t.business_id == b.id) s.tasks)) [
                    | inl missing ↦ absurd (ground arith)
                    | inr (d, second) ↦ elim (Bool-cases (t.id == d.id)) [
                      | inl same ↦ absurd (ground arith)
                      | inr other ↦ elim (Bool-cases (is_mutable t.status)) [
                        | inr fixed ↦ absurd (ground arith)
                        | inl free ↦
                            Acyclic-of_Linked s.dependencies s'.dependencies
                              (Linked-of_pairs ext context s s' x t d
                                (rw (found, first, second, other, free) at h))
                              acyclic
                      ]
                    ]
                  ]
          ]
    ]
