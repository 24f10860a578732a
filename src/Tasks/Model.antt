-- ===== src/Tasks/Model.antt =====
-- models.py: the rows of tasks; tasks/service.py: the statuses and the transitions between them.
use foundora_ai.Base.{
  ℕ, String, Bool, true, false, Option, List, [], ◌∷◌, find, ◌==◌, string_eq, Uuid, Datetime,
  Details,
}
use foundora_ai.Business.{Directory}
use foundora_ai.Events.Contracts.{EventError}
use foundora_ai.Events.Model.{Outbox}

-- TASK_STATUSES
pub data TaskStatus : Type 0 where
  draft planned queued running blocked waiting_approval completed failed cancelled : TaskStatus

abbrev pub status_text : TaskStatus → String
status_text draft = "draft"
status_text planned = "planned"
status_text queued = "queued"
status_text running = "running"
status_text blocked = "blocked"
status_text waiting_approval = "waiting_approval"
status_text completed = "completed"
status_text failed = "failed"
status_text cancelled = "cancelled"

abbrev pub task_statuses : List TaskStatus
task_statuses =
    draft ∷ planned ∷ queued ∷ running ∷ blocked ∷ waiting_approval ∷ completed ∷ failed ∷ cancelled
    ∷ []

-- The member of TASK_STATUSES that a text names.
unfoldable pub status_of_text : String → Option TaskStatus
status_of_text name = find (λ x. status_text x == name) task_statuses

-- TRANSITIONS
abbrev pub may_become : TaskStatus → TaskStatus → Bool
may_become draft planned = true
may_become draft cancelled = true
may_become planned queued = true
may_become planned blocked = true
may_become planned cancelled = true
may_become queued running = true
may_become queued blocked = true
may_become queued cancelled = true
may_become running blocked = true
may_become running waiting_approval = true
may_become running completed = true
may_become running failed = true
may_become running cancelled = true
may_become blocked planned = true
may_become blocked queued = true
may_become blocked cancelled = true
may_become waiting_approval queued = true
may_become waiting_approval running = true
may_become waiting_approval failed = true
may_become waiting_approval cancelled = true
may_become failed cancelled = true
may_become _ _ = false

-- DEPENDENCY_GATED_STATES
abbrev pub is_gated : TaskStatus → Bool
is_gated queued = true
is_gated running = true
is_gated _ = false

-- DEPENDENCY_MUTABLE_STATES
abbrev pub is_mutable : TaskStatus → Bool
is_mutable draft = true
is_mutable planned = true
is_mutable blocked = true
is_mutable _ = false

pub record Task : Type 0 where
  pub id : Uuid
  pub business_id : Uuid
  pub goal_id : Option Uuid
  pub title : String
  pub description : Option String
  pub priority : ℕ
  pub owner_type : String
  pub owner_agent_id : Option String
  pub owner_agent_version_id : Option Uuid
  pub status : TaskStatus
  pub due_at : Option Datetime
  pub max_retries : ℕ
  pub retry_count : ℕ
  pub last_error : Option String
  pub created_by_owner_id : Uuid
  pub created_at : Datetime
  pub updated_at : Datetime

pub record TaskDependency : Type 0 where
  pub task_id : Uuid
  pub depends_on_task_id : Uuid
  pub created_at : Datetime

pub record TaskEvent : Type 0 where
  pub id : Uuid
  pub task_id : Uuid
  pub event_type : String
  pub from_status : Option TaskStatus
  pub to_status : Option TaskStatus
  pub actor_owner_id : Uuid
  pub idempotency_key : Option String
  pub details : Details
  pub created_at : Datetime

-- The columns of goals, agents and agent versions that the service reads.
pub record BusinessGoal : Type 0 where
  pub id : Uuid
  pub business_id : Uuid

pub record Agent : Type 0 where
  pub id : String
  pub enabled : Bool
  pub current_version : ℕ

pub record AgentVersion : Type 0 where
  pub id : Uuid
  pub agent_id : String
  pub version : ℕ

pub data TaskError : Type 0 where
  no_selected_business task_not_found goal_not_found agent_owner_not_found : TaskError
  invalid_transition : TaskError
  self_dependency dependencies_fixed dependency_cycle : TaskError
  incomplete_dependencies : List Uuid → TaskError
  not_failed retry_limit_reached : TaskError
  unpublished : EventError → TaskError

-- The tables. `clock k` is the k-th reading of the clock, and `ticks` counts the readings.
pub record Workspace : Type 0 where
  pub directory : Directory
  pub goals : List BusinessGoal
  pub agents : List Agent
  pub agent_versions : List AgentVersion
  pub tasks : List Task
  pub dependencies : List TaskDependency
  pub task_events : List TaskEvent
  pub outbox : Outbox
  pub clock : ℕ → Datetime
  pub ticks : ℕ
