-- ===== src/Governance/Service/Authorize.antt =====
-- `authorize` and `authorize_in_session` of governance/service.py.
pub mod Granted
pub mod Checked
pub mod Limits
use foundora_ai.Base.{
  ℕ, String, Bool, true, false, ◌&&◌, ◌||◌, not, Option, none, some, List, [], ◌∷◌, ok, err, Tx,
  pure, or_raise, ◌>>=◌, ◌>>◌, gets, modify, continue, ◌==◌, ◌!=◌, nat_eq, string_eq, option_eq,
  if◌then◌else◌, find, put, Uuid, Datetime, Details, text, flag, Value,
}
use foundora_ai.Business.{AuthContext}
use foundora_ai.Governance.Registry.{risk_text}
use foundora_ai.Governance.Model.{
  GovernanceToolPermission, GovernanceAction, ApprovalRequest, PolicyVersion, ActionStatus,
  approved, authorized, denied, blocked, not_found,
}
use foundora_ai.Governance.Decision.{Case, initial_decision}
use foundora_ai.Governance.Service.{
  Gov, ActionRecord, now, Audit, add_audit, policy, Defaults, defaults, authorized_spend_today,
  is_authorized, selected_business, write_action,
}
use foundora_ai.Governance.Service.Evaluate.{status_text}
use foundora_ai.Governance.Service.Decide.{find_action}

-- The arguments of `authorize_in_session`.
pub record Authorization : Type 0 where
  pub business_id : Uuid
  pub action_id : Uuid
  pub idempotency_key : String
  pub owner_id : Option Uuid
  pub force_recheck : Bool

abbrev approval_id : Option ApprovalRequest → Option Uuid
approval_id none = none
approval_id (some p) = some p.id

abbrev audit_of : Authorization → GovernanceAction → Option ApprovalRequest → Details → Audit
audit_of z a p details = record {
  business_id = some z.business_id;
  action_id = some a.id;
  approval_request_id = approval_id p;
  actor_owner_id = z.owner_id;
  idempotency_key = some z.idempotency_key;
  details = details;
}

abbrev pub with_approval : GovernanceAction → Option ApprovalRequest → ActionRecord
with_approval a p = record { action = a; approval = p }

-- `action.status in {"approved", "authorized"}`
abbrev pub may_run : ActionStatus → Bool
may_run approved = true
may_run authorized = true
may_run _ = false

-- `blocked_status in {"blocked", "denied"}`
abbrev pub is_refused : ActionStatus → Bool
is_refused blocked = true
is_refused denied = true
is_refused _ = false

-- `if was_authorized: action.status = ...; action.authorized_at = None`, and the two writes below.
unfoldable pub withdrawn : GovernanceAction → ActionStatus → String → Datetime → GovernanceAction
withdrawn a status rationale at =
    if is_authorized a.status
    then record a { status = status; rationale = rationale; updated_at = at; authorized_at = none }
    else record a { rationale = rationale; updated_at = at }

unfoldable pub block :
    Authorization
    → GovernanceAction
    → Option ApprovalRequest
    → ActionStatus
    → String
    → String
    → Gov ActionRecord
block z a p status rationale audited = do
  at ← now
  write_action (withdrawn a status rationale at)
  add_audit "execution_blocked" (audit_of z a p (("rationale", text audited) ∷ []))
  pure (with_approval (withdrawn a status rationale at) p)

unfoldable pub authorized_action : GovernanceAction → Datetime → GovernanceAction
authorized_action a at = record a {
  status = authorized;
  rationale = "Approved action passed execution-time policy recheck";
  updated_at = at;
  authorized_at = some at;
}

unfoldable pub grant : Authorization → GovernanceAction → Option ApprovalRequest → Gov ActionRecord
grant z a p = do
  at ← now
  write_action (authorized_action a at)
  add_audit "execution_authorized" (
      audit_of z a p
        (("risk_class", text (risk_text a.risk_class)) ∷ ("automatic", flag false) ∷ []))
  pure (with_approval (authorized_action a at) p)

-- `next((item for item in permissions if item.tool_id == action.tool_id), None)`
unfoldable pub permission_of :
    Option String → List GovernanceToolPermission → Option GovernanceToolPermission
permission_of tool_id = find (λ p. some p.tool_id == tool_id)

abbrev pub recheck_case : GovernanceAction → ℕ → Case
recheck_case a spend_today = record {
  risk_class = a.risk_class;
  tool_id = a.tool_id;
  execution_mode = "manual";
  data_classification = a.data_classification;
  requested_spend_microusd = a.requested_spend_microusd;
  authorized_spend_today_microusd = spend_today;
  force_approval = false;
}

unfoldable pub recheck : GovernanceAction → Defaults → ℕ → ActionStatus × String
recheck a d spend_today =
    initial_decision d.controls d.setting (permission_of a.tool_id d.permissions)
      (recheck_case a spend_today)

unfoldable pub authorize_checked :
    Authorization
    → GovernanceAction
    → Option ApprovalRequest
    → ActionStatus × String
    → Gov ActionRecord
authorize_checked z a p (status, rationale) =
    if is_refused status then block z a p status rationale rationale else grant z a p

-- From the defaults on.
unfoldable pub authorize_current :
    Authorization → GovernanceAction → Option ApprovalRequest → Gov ActionRecord
authorize_current z a p = do
  d ← defaults z.business_id z.owner_id
  at ← now
  spend_today ← gets (λ s. authorized_spend_today z.business_id at s.actions)
  authorize_checked z a p (recheck a d spend_today)

-- From the policy on.
unfoldable pub authorize_runnable :
    Authorization → GovernanceAction → Option ApprovalRequest → Gov ActionRecord
authorize_runnable z a p = do
  rows ← policy
  let version = rows.1
  if a.policy_version_id != version.id
      then block z a p blocked "The active policy version changed; re-evaluation is required"
          "The active policy version changed"
      else authorize_current z a p

pub refuse : Authorization → GovernanceAction → Option ApprovalRequest → Gov ActionRecord
refuse z a p = do
  add_audit "execution_denied" (
      audit_of z a p
        (("status", text (status_text a.status)) ∷ ("rationale", text a.rationale) ∷ []))
  pure (with_approval a p)

unfoldable pub authorize_found :
    Authorization → GovernanceAction → Option ApprovalRequest → Gov ActionRecord
authorize_found z a p =
    if is_authorized a.status && not z.force_recheck
    then pure (with_approval a p)
    else if not (may_run a.status)
    then refuse z a p
    else authorize_runnable z a p

unfoldable pub authorize_in_session : Authorization → Gov ActionRecord
authorize_in_session z = do
  s ← gets (λ s. s)
  a ← or_raise not_found (find_action z.action_id z.business_id s.actions)
  authorize_found z a (find (λ p. p.action_id == a.id) s.approvals)

pub authorize : AuthContext → Uuid → String → Gov ActionRecord
authorize context action_id key = do
  business ← selected_business context
  authorize_in_session (record {
    business_id = business.id;
    action_id = action_id;
    idempotency_key = key;
    owner_id = some context.owner_id;
    force_recheck = false;
  })
