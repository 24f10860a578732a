-- ===== src/Tasks/Examples.antt =====
-- Tasks on a concrete workspace: a failed task with a retry left, and two that depend on each other.
use foundora_ai.Base.{
  ◌+◌, ◌≤◌, ◌≡◌, ◌⊎◌, ◌↔◌, refl, true, false, none, some, List, [], ◌∷◌, Result, ok, err, External,
  Uuid, put, ◌==◌, nat_eq, same_object,
}
use foundora_ai.Business.Samples.{session_of}
use foundora_ai.Business.{AuthContext, Business, resolve_selected_business}
use foundora_ai.Events.Contracts.{
  EventConsumer, key_reused, event_contracts, find_contract, check_contract, validate_event,
  consumers_for,
}
use foundora_ai.Events.Contracts.Business.{
  business_created, goal_created, task_completed, task_failed,
}
use foundora_ai.Events.Publish.{
  publish_event, publish_to, is_same_key, differs, insert_event, new_event, add_deliveries,
  new_delivery, replay_event,
}
use foundora_ai.Tasks.Model.{
  Task, TaskError, Workspace, TaskStatus, draft, queued, running, failed, unpublished,
  status_of_text, may_become, is_gated,
}
use foundora_ai.Tasks.Cycle.{would_create_cycle, search_from, extend, outgoing}
use foundora_ai.Tasks.Cycle.Search.{Reaches}
use foundora_ai.Tasks.Cycle.Reach.{would_create_cycle-Reaches}
use foundora_ai.Tasks.Cycle.Acyclic.{Acyclic}
use foundora_ai.Tasks.Service.{
  selected_business, find_task, add_event, blockers_among, ensure_dependencies_complete,
  ensure_transition, check_gate, publish, outcome_request, publish_outcome, announce, moved, move,
  transition, retried, write_retry, retry_task, retry, write_link, link, add_dependency,
}
use foundora_ai.Tasks.Dependencies.{add_dependency-Acyclic}
use foundora_ai.Tasks.Lifecycle.{transition_allowed, retry_counted}

abbrev ext : External
ext = record {
  uuid_text = λ _. "id";
  payload_valid = λ _ _. true;
  truncate = λ _ t. t;
  json_size = λ _. 2;
  correlation = "-";
}

abbrev consumers : List EventConsumer
consumers =
    record {
      name = "audit";
      event_types = "task.failed" ∷ [];
      max_attempts = 5;
      timeout_seconds = 5;
    }
    ∷ []

abbrev task : Uuid → TaskStatus → Task
task id status = record {
  id = id;
  business_id = 1;
  goal_id = none;
  title = "Write";
  description = none;
  priority = 3;
  owner_type = "founder";
  owner_agent_id = none;
  owner_agent_version_id = none;
  status = status;
  due_at = none;
  max_retries = 2;
  retry_count = 0;
  last_error = none;
  created_by_owner_id = 9;
  created_at = 10;
  updated_at = 10;
}

abbrev shop : Business
shop = record { id = 1; owner_id = 9; name = "Shop"; archived_at = none }

abbrev owner : AuthContext
owner = record { owner_id = 9; session_id = 7 }

abbrev start : Workspace
start = record {
  directory = record { sessions = session_of 7 9 (some 1) ∷ []; businesses = shop ∷ [] };
  goals = [];
  agents = [];
  agent_versions = [];
  tasks = task 20 running ∷ task 21 draft ∷ task 22 draft ∷ task 23 failed ∷ [];
  dependencies = [];
  task_events = [];
  outbox = record { events = []; deliveries = []; next_uuid = 30 };
  clock = λ k. 100 + k;
  ticks = 0;
}

abbrev task_of : Result TaskError (Task × Workspace) → Task
task_of (ok (t, s)) = t
task_of (err e) = task 0 draft

abbrev state_of : Result TaskError (Task × Workspace) → Workspace
state_of (ok (t, s)) = s
state_of (err e) = start

owner_known : resolve_selected_business start.directory owner ≡ some shop
unfolding resolve_selected_business
owner_known = refl

would_create_cycle-Reaches_example : (would_create_cycle 21 22 [] ≡ true) ↔ Reaches [] 21 22
would_create_cycle-Reaches_example = would_create_cycle-Reaches 21 22 []

-- 21 waits for 22.
abbrev linked : Result TaskError (Task × Workspace)
linked = add_dependency ext owner 21 22 start

linked_ok : linked ≡ ok (task_of linked, state_of linked)
unfolding add_dependency selected_business resolve_selected_business find_task link write_link
    add_event would_create_cycle search_from extend outgoing
linked_ok = refl

none_yet : Acyclic start.dependencies
none_yet d m r = absurd m

add_dependency-Acyclic_example : Acyclic (state_of linked).dependencies
add_dependency-Acyclic_example =
    add_dependency-Acyclic ext owner 21 22 start (state_of linked) (task_of linked) none_yet
      linked_ok

abbrev stopped : Result TaskError (Task × Workspace)
stopped = transition ext consumers owner 20 "failed" (some "timeout") start

stopped_ok : stopped ≡ ok (task_of stopped, state_of stopped)
unfolding transition selected_business resolve_selected_business find_task ensure_transition
    status_of_text check_gate move moved add_event announce publish_outcome publish outcome_request
    publish_event validate_event find_contract event_contracts business_created goal_created
    task_completed task_failed check_contract consumers_for publish_to is_same_key insert_event
    new_event add_deliveries new_delivery
stopped_ok = refl

transition_allowed_example :
    (status_of_text "failed" ≡ some (task_of stopped).status)
    × (may_become running (task_of stopped).status ≡ true)
    × ((is_gated (task_of stopped).status ≡ false)
        ⊎ (blockers_among start.tasks 20 start.dependencies ≡ []))
    × ((state_of stopped).tasks ≡ put (λ y. y.id == 20) (task_of stopped) start.tasks)
transition_allowed_example =
    transition_allowed ext consumers owner 20 "failed" (some "timeout") start (state_of stopped)
      shop (task 20 running) (task_of stopped) owner_known refl stopped_ok

abbrev requeued : Result TaskError (Task × Workspace)
requeued = retry owner 23 "retry-1" start

requeued_ok : requeued ≡ ok (task_of requeued, state_of requeued)
unfolding retry selected_business resolve_selected_business find_task retry_task
    ensure_dependencies_complete blockers_among write_retry retried add_event
requeued_ok = refl

retry_counted_example :
    (failed ≡ failed)
    × ((task_of requeued).status ≡ queued)
    × ((task_of requeued).retry_count ≡ 1)
    × ((task_of requeued).retry_count ≤ (task_of requeued).max_retries)
    × (blockers_among start.tasks 23 start.dependencies ≡ [])
    × (retry owner 23 "retry-1" (state_of requeued) ≡ ok (task_of requeued, state_of requeued))
retry_counted_example =
    retry_counted owner 23 "retry-1" start (state_of requeued) shop (task 23 failed)
      (task_of requeued) owner_known refl refl requeued_ok

-- A task that failed, was retried and runs again cannot fail with another error: the key of the event
-- is the first failure's.
abbrev running_again : Workspace
running_again = state_of (
    transition ext consumers owner 20 "running" none
      (state_of (retry owner 20 "retry-2" (state_of stopped))))

fails_again :
    transition ext consumers owner 20 "failed" (some "refused") running_again
    ≡ err (unpublished key_reused)
unfolding transition selected_business resolve_selected_business find_task ensure_transition
    status_of_text check_gate ensure_dependencies_complete blockers_among move moved add_event
    announce publish_outcome publish outcome_request publish_event validate_event find_contract
    event_contracts business_created goal_created task_completed task_failed check_contract
    consumers_for publish_to is_same_key insert_event new_event add_deliveries new_delivery
    replay_event differs same_object retry retry_task write_retry retried
fails_again = refl
