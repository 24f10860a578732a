-- ===== src/Tasks/Service/Session.antt =====
-- The parts that the operations of tasks/service.py share: `_task`, `_event`, `_agent_owner`,
-- `_ensure_dependencies_complete` and `ensure_transition`.
use foundora_ai.Base.{
  suc, String, Bool, true, false, ◌&&◌, not, Option, none, some, List, [], ◌∷◌, ◌++◌, is_nil, ok,
  err, Tx, pure, or_raise, raise_if, ◌>>=◌, ◌>>◌, gets, modify, ◌==◌, nat_eq, string_eq, option_eq,
  if◌then◌else◌, find, put, Uuid, Datetime, Details, Value, null, text,
}
use foundora_ai.Business.{Business, AuthContext, resolve_selected_business}
use foundora_ai.Tasks.Model.{
  TaskStatus, completed, status_of_text, may_become, Task, TaskDependency, TaskError,
  no_selected_business, task_not_found, agent_owner_not_found, invalid_transition,
  incomplete_dependencies, Workspace,
}

abbrev pub Work : Type 0 → Type 0
Work A = Tx TaskError Workspace A

-- `_now`
abbrev pub now : Work Datetime
now s = ok (s.clock s.ticks, record s { ticks = suc s.ticks })

-- `uuid.uuid4()`
abbrev pub new_uuid : Work Uuid
new_uuid s =
    let o = s.outbox in
    ok (o.next_uuid, record s { outbox = record o { next_uuid = suc o.next_uuid } })

-- `resolve_selected_business`, raising.
unfoldable pub selected_business : AuthContext → Work Business
selected_business context = do
  directory ← gets (λ s. s.directory)
  or_raise no_selected_business (resolve_selected_business directory context)

-- `_task`
unfoldable pub find_task : Uuid → Uuid → Work Task
find_task business_id task_id = do
  tasks ← gets (λ s. s.tasks)
  or_raise task_not_found (find (λ t. t.id == task_id && t.business_id == business_id) tasks)

abbrev pub write_task : Task → Work (Unit {0})
write_task t = modify (λ s. record s { tasks = put (λ x. x.id == t.id) t s.tasks })

-- The arguments of `_event` behind the task and the context.
pub record EventArguments : Type 0 where
  pub event_type : String
  pub from_status : Option TaskStatus
  pub to_status : Option TaskStatus
  pub details : Details
  pub idempotency_key : Option String

-- `database.add(self._event(...))`
unfoldable pub add_event : Uuid → AuthContext → EventArguments → Work (Unit {0})
add_event task_id context a = do
  id ← new_uuid
  at ← now
  modify (λ s. record s {
    task_events =
        s.task_events
        ++ record {
          id = id;
          task_id = task_id;
          event_type = a.event_type;
          from_status = a.from_status;
          to_status = a.to_status;
          actor_owner_id = context.owner_id;
          idempotency_key = a.idempotency_key;
          details = a.details;
          created_at = at;
        }
          ∷ [];
  })

-- The tasks that a task waits for: its dependencies that are not completed.
abbrev pub is_completed : TaskStatus → Bool
is_completed completed = true
is_completed _ = false

unfoldable pub blockers_among : List Task → Uuid → List TaskDependency → List Uuid
blockers_among tasks task_id [] = []
blockers_among tasks task_id (d ∷ ds) =
    let rest = blockers_among tasks task_id ds in
    if d.task_id == task_id
    then elim (find (λ t. t.id == d.depends_on_task_id) tasks) [
      | none ↦ rest
      | some t ↦ if is_completed t.status then rest else t.id ∷ rest
    ]
    else rest

-- `_ensure_dependencies_complete`
unfoldable pub ensure_dependencies_complete : Uuid → Work (Unit {0})
ensure_dependencies_complete task_id = do
  s ← gets (λ s. s)
  let blockers = blockers_among s.tasks task_id s.dependencies
  raise_if (not (is_nil blockers)) (incomplete_dependencies blockers)

-- `ensure_transition`, which also reads the requested text as a status.
unfoldable pub ensure_transition : TaskStatus → String → Work TaskStatus
ensure_transition current requested = do
  status ← or_raise invalid_transition (status_of_text requested)
  raise_if (not (may_become current status)) invalid_transition
  pure status

-- The version of `_agent_owner`, by the ids of the agent and of the version.
unfoldable pub agent_owner : Option String → Work (String × Uuid)
agent_owner none = λ s. err agent_owner_not_found
agent_owner (some agent_id) = do
  s ← gets (λ s. s)
  agent ← or_raise agent_owner_not_found (find (λ a. a.id == agent_id && a.enabled) s.agents)
  version ←
      or_raise agent_owner_not_found
        (find (λ v. v.agent_id == agent.id && v.version == agent.current_version) s.agent_versions)
  pure (agent.id, version.id)

abbrev pub is_some {ℓ} : {A : Type ℓ} → Option A → Bool
is_some none = false
is_some (some a) = true

abbrev pub json_text : Option String → Value
json_text none = null
json_text (some s) = text s
