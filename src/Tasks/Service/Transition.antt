-- ===== src/Tasks/Service/Transition.antt =====
-- `transition` of tasks/service.py.
use foundora_ai.Base.{
  String, Bool, true, false, Option, none, some, List, [], ◌∷◌, ok, err, pure, ◌>>=◌, ◌>>◌,
  continue, ◌==◌, nat_eq, string_eq, option_eq, if◌then◌else◌, Uuid, Datetime, Details, text,
  External,
}
use Prim.Native.String.{◌++◌ as ◌+++◌}
use foundora_ai.Business.{AuthContext}
use foundora_ai.Events.Contracts.{EventConsumer}
use foundora_ai.Events.Model.{DomainEvent}
use foundora_ai.Events.Publish.{Request, publish_event}
use foundora_ai.Tasks.Model.{
  TaskStatus, completed, failed, status_text, is_gated, Task, unpublished,
}
use foundora_ai.Tasks.Service.Session.{
  Work, now, selected_business, find_task, write_task, add_event, ensure_dependencies_complete,
  ensure_transition, json_text,
}

-- `publish_event` in the session, with its own reading of the clock.
unfoldable pub publish : External → List EventConsumer → Request → Work DomainEvent
publish ext consumers r = do
  at ← now
  λ s. elim (publish_event ext consumers r at s.outbox) [
    | err e ↦ err (unpublished e)
    | ok (event, o) ↦ ok (event, record s { outbox = o })
  ]

-- `details={"error": error} if error else {}`
abbrev error_details : Option String → Details
error_details none = []
error_details (some e) = if e == "" then [] else ("error", text e) ∷ []

-- `task.last_error = error if requested_status == "failed" else None`
abbrev kept_error : TaskStatus → Option String → Option String
kept_error failed error = error
kept_error _ error = none

unfoldable pub moved : Task → TaskStatus → Option String → Datetime → Task
moved t status error at = record t {
  status = status;
  last_error = kept_error status error;
  updated_at = at;
}

abbrev pub outcome_payload : External → Task → TaskStatus → Option String → Details
outcome_payload ext t failed error =
    ("task_id", text (ext.uuid_text t.id))
    ∷ ("previous_status", text (status_text t.status))
    ∷ ("error", json_text error)
    ∷ []
outcome_payload ext t _ error =
    ("task_id", text (ext.uuid_text t.id)) ∷ ("previous_status", text (status_text t.status)) ∷ []

-- The request that `transition` publishes; the task is as it was before.
unfoldable pub outcome_request :
    External → Uuid → Task → TaskStatus → Option String → Datetime → Request
outcome_request ext business_id t status error at = record {
  business_id = business_id;
  event_type = "task." +++ status_text status;
  aggregate_type = "task";
  aggregate_id = ext.uuid_text t.id;
  idempotency_key = "task:" +++ ext.uuid_text t.id +++ ":" +++ status_text status;
  payload = outcome_payload ext t status error;
  schema_version = 1;
  causation_event_id = none;
  occurred_at = some at;
  correlation = ext.correlation;
}

-- `if requested_status in {"completed", "failed"}`
abbrev pub is_outcome : TaskStatus → Bool
is_outcome completed = true
is_outcome failed = true
is_outcome _ = false

unfoldable pub publish_outcome :
    External
    → List EventConsumer
    → Uuid
    → Task
    → TaskStatus
    → Option String
    → Datetime
    → Work (Unit {0})
publish_outcome ext consumers business_id t status error at s =
    if is_outcome status
    then continue (publish ext consumers (outcome_request ext business_id t status error at) s)
        (λ _. pure tt)
    else ok (tt, s)

-- The end of `transition`.
unfoldable pub announce :
    External → List EventConsumer → Uuid → Task → TaskStatus → Option String → Datetime → Work Task
announce ext consumers business_id t status error at = do
  publish_outcome ext consumers business_id t status error at
  pure (moved t status error at)

-- From the checks of `transition` on.
unfoldable pub move :
    External
    → List EventConsumer
    → AuthContext
    → Uuid
    → Task
    → TaskStatus
    → Option String
    → Work Task
move ext consumers context business_id t status error = do
  at ← now
  write_task (moved t status error at)
  add_event t.id context (record {
    event_type = "status_changed";
    from_status = some t.status;
    to_status = some status;
    details = error_details error;
    idempotency_key = none;
  })
  announce ext consumers business_id t status error at

-- `if requested_status in DEPENDENCY_GATED_STATES`
unfoldable pub check_gate : TaskStatus → Uuid → Work (Unit {0})
check_gate status task_id s =
    if is_gated status then ensure_dependencies_complete task_id s else ok (tt, s)

unfoldable pub transition :
    External → List EventConsumer → AuthContext → Uuid → String → Option String → Work Task
transition ext consumers context task_id requested error = do
  business ← selected_business context
  task ← find_task business.id task_id
  status ← ensure_transition task.status requested
  check_gate status task.id
  move ext consumers context business.id task status error
