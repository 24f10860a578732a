-- ===== src/Governance/Service/Evaluate.antt =====
-- `evaluate` and `evaluate_in_session` of governance/service.py.
pub mod Recorded
pub mod Outcome
use Prim.Native.String.{◌++◌ as ◌+++◌}
use foundora_ai.Base.{
  ℕ, String, Bool, true, false, ◌||◌, Option, none, some, List, [], ◌∷◌, ◌++◌, Result, ok, err, Tx,
  pure, raise, raise_if, or_raise, ◌>>=◌, ◌>>◌, gets, modify, continue, ◌==◌, ◌!=◌, ◌&&◌, nat_eq,
  string_eq, option_eq, if◌then◌else◌, find, Uuid, Datetime, Details, Value, text, number, flag,
  External,
}
use foundora_ai.Business.{AuthContext}
use foundora_ai.Events.Contracts.{EventConsumer}
use foundora_ai.Events.Publish.{Request}
use foundora_ai.Governance.Registry.{
  RiskClass, risk_text, ActionDescriptor, classify_action, find_action, ClassificationError,
  unknown_action,
}
use foundora_ai.Governance.Model.{
  PolicyVersion, GovernanceToolPermission, GovernanceAction, ApprovalRequest, GovernanceError,
  Database, ActionStatus, approval_required, approved, rejected, authorized, denied, blocked,
  approval_pending, key_reused, unclassified,
}
use foundora_ai.Governance.Decision.{Case, initial_decision}
use foundora_ai.Governance.Service.{
  Gov, ActionRecord, now, new_uuid, Audit, add_audit, policy, Defaults, defaults,
  authorized_spend_today, is_authorized, publish, selected_business,
}

-- The arguments of `evaluate_in_session`.
pub record ActionRequest : Type 0 where
  pub business_id : Uuid
  pub action_type : String
  pub actor_type : String
  pub actor_id : Option String
  pub tool_id : Option String
  pub execution_mode : String
  pub data_classification : String
  pub requested_spend_microusd : ℕ
  pub frequency_key : Option String
  pub target : Option String
  pub idempotency_key : String
  pub created_by_owner_id : Option Uuid
  pub workflow_run_id : Option Uuid
  pub workflow_step_key : Option String
  pub minimum_risk_class : Option String
  pub force_approval : Bool
  pub approval_prompt : Option String

abbrev pub status_text : ActionStatus → String
status_text approval_required = "approval_required"
status_text approved = "approved"
status_text rejected = "rejected"
status_text authorized = "authorized"
status_text denied = "denied"
status_text blocked = "blocked"

unfoldable pub is_same_request : ActionRequest → GovernanceAction → Bool
is_same_request r a = a.business_id == r.business_id && a.idempotency_key == r.idempotency_key

-- `any((existing.action_type != action_type, ...))`
unfoldable pub differs : ActionRequest → GovernanceAction → Bool
differs r a =
    a.action_type != r.action_type
    || (a.actor_type != r.actor_type
        || (a.actor_id != r.actor_id
            || (a.tool_id != r.tool_id
                || (a.execution_mode != r.execution_mode
                    || (a.data_classification != r.data_classification
                        || (a.requested_spend_microusd != r.requested_spend_microusd
                            || (a.frequency_key != r.frequency_key
                                || (a.target != r.target
                                    || (a.workflow_run_id != r.workflow_run_id
                                        || a.workflow_step_key != r.workflow_step_key)))))))))

unfoldable pub classified : ActionRequest → Gov RiskClass
classified r s =
    elim (classify_action r.action_type r.tool_id r.requested_spend_microusd r.minimum_risk_class) [
      | err e ↦ err (unclassified e)
      | ok c ↦ ok (c, s)
    ]

-- The answer to a key that is known.
unfoldable pub known_action : ActionRequest → GovernanceAction → Gov ActionRecord
known_action r existing = do
  raise_if (differs r existing) key_reused
  approval ← gets (λ s. find (λ x. x.action_id == existing.id) s.approvals)
  pure (record { action = existing; approval = approval })

-- `permission_by_tool.get(tool_id) if tool_id else None`
unfoldable pub permission_for :
    Option String → List GovernanceToolPermission → Option GovernanceToolPermission
permission_for none permissions = none
permission_for (some tool_id) permissions =
    if tool_id == "" then none else find (λ p. p.tool_id == tool_id) permissions

unfoldable pub case_of : ActionRequest → RiskClass → ℕ → Case
case_of r risk_class spend_today = record {
  risk_class = risk_class;
  tool_id = r.tool_id;
  execution_mode = r.execution_mode;
  data_classification = r.data_classification;
  requested_spend_microusd = r.requested_spend_microusd;
  authorized_spend_today_microusd = spend_today;
  force_approval = r.force_approval;
}

unfoldable pub new_action :
    ActionRequest → Uuid → RiskClass → ActionStatus × String → Datetime → Uuid → GovernanceAction
new_action r policy_version_id risk_class (status, rationale) at id = record {
  id = id;
  business_id = r.business_id;
  policy_version_id = policy_version_id;
  workflow_run_id = r.workflow_run_id;
  workflow_step_key = r.workflow_step_key;
  action_type = r.action_type;
  actor_type = r.actor_type;
  actor_id = r.actor_id;
  tool_id = r.tool_id;
  risk_class = risk_class;
  execution_mode = r.execution_mode;
  data_classification = r.data_classification;
  requested_spend_microusd = r.requested_spend_microusd;
  frequency_key = r.frequency_key;
  target = r.target;
  status = status;
  rationale = rationale;
  idempotency_key = r.idempotency_key;
  created_by_owner_id = r.created_by_owner_id;
  created_at = at;
  updated_at = at;
  authorized_at = if is_authorized status then some at else none;
}

-- `approval_prompt or ACTION_CATALOG[action_type].description`
prompt_of : Option String → String → String
prompt_of none description = description
prompt_of (some prompt) description = if prompt == "" then description else prompt

requested : External → GovernanceAction → Uuid → Datetime → Request
requested ext a approval_id at = record {
  business_id = a.business_id;
  event_type = "approval.requested";
  aggregate_type = "approval_request";
  aggregate_id = ext.uuid_text approval_id;
  idempotency_key = "approval:" +++ ext.uuid_text approval_id +++ ":requested";
  payload =
      ("approval_request_id", text (ext.uuid_text approval_id))
      ∷ ("action_id", text (ext.uuid_text a.id))
      ∷ ("action_type", text a.action_type)
      ∷ ("risk_class", text (risk_text a.risk_class))
      ∷ [];
  schema_version = 1;
  causation_event_id = none;
  occurred_at = some at;
  correlation = ext.correlation;
}

new_approval :
    External → ActionRequest → GovernanceAction → Datetime → String → Uuid → ApprovalRequest
unfolding prompt_of
new_approval ext r a at description id = record {
  id = id;
  action_id = a.id;
  business_id = r.business_id;
  status = approval_pending;
  prompt = ext.truncate 500 (prompt_of r.approval_prompt description);
  decision_reason = none;
  requested_by_owner_id = r.created_by_owner_id;
  decided_by_owner_id = none;
  requested_at = at;
  decided_at = none;
}

-- The branch `if status == "approval_required"`.
pub request_approval :
    External
    → List EventConsumer
    → ActionRequest
    → GovernanceAction
    → Datetime
    → Gov (Option ApprovalRequest)
unfolding new_approval requested
request_approval ext consumers r a at = do
  descriptor ← or_raise (unclassified unknown_action) (find_action r.action_type)
  id ← new_uuid
  modify (λ s. record s {
    approvals = s.approvals ++ new_approval ext r a at descriptor.description id ∷ [];
  })
  add_audit "approval_requested" (record {
    business_id = some r.business_id;
    action_id = some a.id;
    approval_request_id = some id;
    actor_owner_id = r.created_by_owner_id;
    idempotency_key = none;
    details =
        ("risk_class", text (risk_text a.risk_class))
        ∷ ("prompt", text (new_approval ext r a at descriptor.description id).prompt)
        ∷ [];
  })
  publish ext consumers (requested ext a id at)
  pure (some (new_approval ext r a at descriptor.description id))

-- The rest of the function once the action is in the table.
unfoldable pub follow_up :
    External
    → List EventConsumer
    → ActionRequest
    → GovernanceAction
    → Datetime
    → ActionStatus
    → Gov (Option ApprovalRequest)
follow_up ext consumers r a at approval_required = request_approval ext consumers r a at
follow_up ext consumers r a at authorized = do
  add_audit "execution_authorized" (record {
    business_id = some r.business_id;
    action_id = some a.id;
    approval_request_id = none;
    actor_owner_id = r.created_by_owner_id;
    idempotency_key = none;
    details = ("risk_class", text (risk_text a.risk_class)) ∷ ("automatic", flag true) ∷ [];
  })
  pure none
follow_up ext consumers r a at _ = pure none

unfoldable pub finish_action :
    External
    → List EventConsumer
    → ActionRequest
    → GovernanceAction
    → Datetime
    → ActionStatus
    → Gov ActionRecord
finish_action ext consumers r a at status = do
  approval ← follow_up ext consumers r a at status
  pure (record { action = a; approval = approval })

-- From the initial decision on.
unfoldable pub record_action :
    External
    → List EventConsumer
    → ActionRequest
    → RiskClass
    → PolicyVersion
    → Datetime
    → ActionStatus × String
    → Gov ActionRecord
record_action ext consumers r risk_class version at decision = do
  id ← new_uuid
  modify (λ s. record s {
    actions = s.actions ++ new_action r version.id risk_class decision at id ∷ [];
  })
  add_audit "action_evaluated" (record {
    business_id = some r.business_id;
    action_id = some id;
    approval_request_id = none;
    actor_owner_id = r.created_by_owner_id;
    idempotency_key = some r.idempotency_key;
    details =
        ("action_type", text r.action_type)
        ∷ ("risk_class", text (risk_text risk_class))
        ∷ ("status", text (status_text decision.0))
        ∷ ("policy_version", number version.version)
        ∷ ("rationale", text decision.1)
        ∷ [];
  })
  finish_action ext consumers r (new_action r version.id risk_class decision at id) at decision.0

-- The decision on a new action, with its reading of the clock.
unfoldable pub decide_action :
    ActionRequest → RiskClass → Defaults → Gov (Datetime × (ActionStatus × String))
decide_action r risk_class d = do
  at ← now
  spend_today ← gets (λ s. authorized_spend_today r.business_id at s.actions)
  pure (
    at,
    initial_decision d.controls d.setting (permission_for r.tool_id d.permissions)
        (case_of r risk_class spend_today),
  )

unfoldable pub evaluate_new :
    External
    → List EventConsumer
    → ActionRequest
    → RiskClass
    → PolicyVersion
    → Defaults
    → Gov ActionRecord
evaluate_new ext consumers r risk_class version d = do
  decision ← decide_action r risk_class d
  record_action ext consumers r risk_class version decision.0 decision.1

-- The lookup of the idempotency key.
unfoldable pub evaluate_key :
    External
    → List EventConsumer
    → ActionRequest
    → RiskClass
    → PolicyVersion
    → Defaults
    → Gov ActionRecord
evaluate_key ext consumers r risk_class version d s = elim (find (is_same_request r) s.actions) [
  | some existing ↦ known_action r existing s
  | none ↦ evaluate_new ext consumers r risk_class version d s
]

unfoldable pub evaluate_in_session :
    External → List EventConsumer → ActionRequest → Gov ActionRecord
unfolding classified
evaluate_in_session ext consumers r = do
  risk_class ← classified r
  rows ← policy
  d ← defaults r.business_id r.created_by_owner_id
  evaluate_key ext consumers r risk_class rows.1 d

-- The arguments of `evaluate` behind the context.
pub record EvaluateArguments : Type 0 where
  pub action_type : String
  pub actor_type : String
  pub actor_id : Option String
  pub tool_id : Option String
  pub execution_mode : String
  pub data_classification : String
  pub requested_spend_microusd : ℕ
  pub frequency_key : Option String
  pub target : Option String
  pub idempotency_key : String

pub evaluate : External → List EventConsumer → AuthContext → EvaluateArguments → Gov ActionRecord
evaluate ext consumers context a = do
  business ← selected_business context
  evaluate_in_session ext consumers (record {
    business_id = business.id;
    action_type = a.action_type;
    actor_type = a.actor_type;
    actor_id = a.actor_id;
    tool_id = a.tool_id;
    execution_mode = a.execution_mode;
    data_classification = a.data_classification;
    requested_spend_microusd = a.requested_spend_microusd;
    frequency_key = a.frequency_key;
    target = a.target;
    idempotency_key = a.idempotency_key;
    created_by_owner_id = some context.owner_id;
    workflow_run_id = none;
    workflow_step_key = none;
    minimum_risk_class = none;
    force_approval = false;
    approval_prompt = none;
  })
