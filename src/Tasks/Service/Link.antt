-- ===== src/Tasks/Service/Link.antt =====
-- `add_dependency` of tasks/service.py.
use foundora_ai.Base.{
  Bool, ◌&&◌, not, none, some, [], ◌∷◌, ◌++◌, pure, raise_if, ◌>>=◌, ◌>>◌, gets, modify, ◌==◌,
  nat_eq, string_eq, option_eq, if◌then◌else◌, find, Uuid, text, External,
}
use foundora_ai.Business.{AuthContext}
use foundora_ai.Tasks.Model.{
  is_mutable, Task, TaskDependency, self_dependency, dependencies_fixed, dependency_cycle,
}
use foundora_ai.Tasks.Cycle.{would_create_cycle}
use foundora_ai.Tasks.Service.Session.{
  Work, now, selected_business, find_task, write_task, add_event, is_some,
}

-- The writes of `add_dependency`.
unfoldable pub write_link : External → AuthContext → Task → Task → Work Task
write_link ext context task dependency = do
  at ← now
  modify (λ s. record s {
    dependencies =
        s.dependencies
        ++ record { task_id = task.id; depends_on_task_id = dependency.id; created_at = at } ∷ [];
  })
  add_event task.id context (record {
    event_type = "dependency_added";
    from_status = some task.status;
    to_status = some task.status;
    details = ("depends_on_task_id", text (ext.uuid_text dependency.id)) ∷ [];
    idempotency_key = none;
  })
  write_task (record task { updated_at = at })
  pure (record task { updated_at = at })

-- The branch `if existing is None` of `add_dependency`.
unfoldable pub link : External → AuthContext → Task → Task → Work Task
link ext context task dependency = do
  pairs ← gets (λ s. s.dependencies)
  raise_if (would_create_cycle task.id dependency.id pairs) dependency_cycle
  write_link ext context task dependency

abbrev pub is_pair : Uuid → Uuid → TaskDependency → Bool
is_pair task_id depends_on d = d.task_id == task_id && d.depends_on_task_id == depends_on

unfoldable pub add_dependency : External → AuthContext → Uuid → Uuid → Work Task
add_dependency ext context task_id depends_on = do
  business ← selected_business context
  task ← find_task business.id task_id
  dependency ← find_task business.id depends_on
  raise_if (task.id == dependency.id) self_dependency
  raise_if (not (is_mutable task.status)) dependencies_fixed
  pairs ← gets (λ s. s.dependencies)
  if is_some (find (is_pair task.id dependency.id) pairs)
      then pure task
      else link ext context task dependency
