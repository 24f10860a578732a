-- ===== src/Tasks/Service/Create.antt =====
-- `create` of tasks/service.py.
use foundora_ai.Base.{
  ℕ, String, ◌&&◌, Option, none, some, [], ◌∷◌, ◌++◌, ok, pure, or_raise, ◌>>=◌, ◌>>◌, gets, modify,
  continue, ◌==◌, nat_eq, string_eq, option_eq, if◌then◌else◌, find, Uuid, Datetime, text, number,
}
use foundora_ai.Business.{AuthContext}
use foundora_ai.Tasks.Model.{draft, Task, goal_not_found}
use foundora_ai.Tasks.Service.Session.{
  Work, now, new_uuid, selected_business, add_event, agent_owner,
}

-- The arguments of `create`.
pub record NewTask : Type 0 where
  pub title : String
  pub description : Option String
  pub goal_id : Option Uuid
  pub priority : ℕ
  pub owner_type : String
  pub owner_agent_id : Option String
  pub due_at : Option Datetime
  pub max_retries : ℕ

-- `if goal_id is not None: ...`
unfoldable pub check_goal : Uuid → Option Uuid → Work (Unit {0})
check_goal business_id none = pure tt
check_goal business_id (some goal_id) = do
  goals ← gets (λ s. s.goals)
  or_raise goal_not_found (find (λ g. g.id == goal_id && g.business_id == business_id) goals)
  pure tt

-- The owner's agent and version, `if owner_type == "agent"`.
unfoldable pub owner_columns : NewTask → Work (Option String × Option Uuid)
owner_columns n s =
    if n.owner_type == "agent"
    then continue (agent_owner n.owner_agent_id s) (λ o. pure (some o.0, some o.1))
    else ok ((none, none), s)

unfoldable pub new_task :
    Uuid → NewTask → Option String × Option Uuid → Uuid → Datetime → Uuid → Task
new_task business_id n owner owner_id at id = record {
  id = id;
  business_id = business_id;
  goal_id = n.goal_id;
  title = n.title;
  description = n.description;
  priority = n.priority;
  owner_type = n.owner_type;
  owner_agent_id = owner.0;
  owner_agent_version_id = owner.1;
  status = draft;
  due_at = n.due_at;
  max_retries = n.max_retries;
  retry_count = 0;
  last_error = none;
  created_by_owner_id = owner_id;
  created_at = at;
  updated_at = at;
}

unfoldable pub create : AuthContext → NewTask → Work Task
create context n = do
  business ← selected_business context
  check_goal business.id n.goal_id
  owner ← owner_columns n
  at ← now
  id ← new_uuid
  modify (λ s. record s {
    tasks = s.tasks ++ new_task business.id n owner context.owner_id at id ∷ [];
  })
  add_event id context (record {
    event_type = "created";
    from_status = none;
    to_status = some draft;
    details = ("priority", number n.priority) ∷ ("owner_type", text n.owner_type) ∷ [];
    idempotency_key = none;
  })
  pure (new_task business.id n owner context.owner_id at id)
