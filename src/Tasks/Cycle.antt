-- ===== src/Tasks/Cycle.antt =====
-- `_would_create_cycle` of tasks/service.py: a depth-first search of the dependency graph. The end of
-- `pending` that `pop` takes from is the head of the list.
pub mod Search
pub mod Reach
pub mod Acyclic
use foundora_ai.Base.{
  ℕ, zero, suc, ◌+◌, Bool, true, false, List, [], ◌∷◌, ◌++◌, map, filter, contains, ◌==◌, nat_eq,
  if◌then◌else◌, length, Uuid,
}
use foundora_ai.Tasks.Model.{TaskDependency}

-- `outgoing.get(current, [])`
unfoldable pub outgoing : Uuid → List TaskDependency → List Uuid
outgoing current [] = []
outgoing current (d ∷ ds) =
    let rest = outgoing current ds in
    if d.task_id == current then d.depends_on_task_id ∷ rest else rest

-- `pending.extend(found)`
unfoldable pub extend : (pending found : List Uuid) → List Uuid
extend pending [] = pending
extend pending (x ∷ found) = extend (x ∷ pending) found

-- The `while` loop, for at most `fuel` rounds.
unfoldable pub search_from :
    (fuel : ℕ) (task_id : Uuid) (pairs : List TaskDependency) (pending seen : List Uuid) → Bool
search_from zero task_id pairs pending seen = false
search_from (suc fuel) task_id pairs [] seen = false
search_from (suc fuel) task_id pairs (current ∷ pending) seen =
    let skipped = search_from fuel task_id pairs pending seen in
    let expanded =
      search_from fuel task_id pairs (extend pending (outgoing current pairs)) (current ∷ seen) in
    if current == task_id then true else if contains seen current then skipped else expanded

-- One round for each dependency, one for the start, and one that finds `pending` empty.
unfoldable pub would_create_cycle : (task_id dependency_id : Uuid) → List TaskDependency → Bool
would_create_cycle task_id dependency_id pairs =
    search_from (length pairs + 2) task_id pairs (dependency_id ∷ []) []
