-- ===== src/Tasks/Service/Retry.antt =====
-- `retry` of tasks/service.py.
use foundora_ai.Base.{
  ◌+◌, String, Bool, true, false, ◌&&◌, not, none, some, [], ◌∷◌, pure, raise_if, ◌>>=◌, ◌>>◌, gets,
  ◌==◌, nat_eq, string_eq, option_eq, if◌then◌else◌, find, leb, Uuid, Datetime, number,
}
use foundora_ai.Business.{AuthContext}
use foundora_ai.Tasks.Model.{
  TaskStatus, queued, failed, Task, TaskEvent, not_failed, retry_limit_reached,
}
use foundora_ai.Tasks.Service.Session.{
  Work, now, selected_business, find_task, write_task, add_event, ensure_dependencies_complete,
  is_some, json_text,
}

unfoldable pub retried : Task → Datetime → Task
retried t at = record t {
  retry_count = t.retry_count + 1;
  status = queued;
  last_error = none;
  updated_at = at;
}

abbrev pub is_failed : TaskStatus → Bool
is_failed failed = true
is_failed _ = false

-- The writes of `retry`.
unfoldable pub write_retry : AuthContext → Task → String → Work Task
write_retry context t key = do
  at ← now
  write_task (retried t at)
  add_event t.id context (record {
    event_type = "retried";
    from_status = some failed;
    to_status = some queued;
    details =
        ("retry_count", number (t.retry_count + 1))
        ∷ ("previous_error", json_text t.last_error)
        ∷ [];
    idempotency_key = some key;
  })
  pure (retried t at)

-- `retry` when no earlier retry has the key.
unfoldable pub retry_task : AuthContext → Task → String → Work Task
retry_task context t key = do
  raise_if (not (is_failed t.status)) not_failed
  raise_if (leb t.max_retries t.retry_count) retry_limit_reached
  ensure_dependencies_complete t.id
  write_retry context t key

abbrev pub is_retry_of : Uuid → String → TaskEvent → Bool
is_retry_of task_id key e =
    e.task_id == task_id && (e.event_type == "retried" && e.idempotency_key == some key)

unfoldable pub retry : AuthContext → Uuid → String → Work Task
retry context task_id key = do
  business ← selected_business context
  task ← find_task business.id task_id
  events ← gets (λ s. s.task_events)
  if is_some (find (is_retry_of task.id key) events) then pure task else retry_task context task key
