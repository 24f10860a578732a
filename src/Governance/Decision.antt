-- ===== src/Governance/Decision.antt =====
-- `_initial_decision` of governance/service.py.
pub mod Laws
use Prim.Native.String.{◌++◌}
use foundora_ai.Base.{
  ℕ, ◌+◌, String, Bool, true, false, not, ◌&&◌, ◌||◌, Option, none, some, ltb, leb, ◌==◌, string_eq,
  if◌then◌else◌,
}
use foundora_ai.Governance.Registry.{RiskClass, r2, r5, risk_rank, risk_text}
use foundora_ai.Governance.Model.{
  GlobalGovernanceControl, GovernanceSetting, GovernanceToolPermission, AutonomyLevel, level_off,
  recommend, assisted, autonomous_low_risk, ActionStatus, approval_required, authorized, denied,
  blocked,
}

-- The arguments of `_initial_decision` that describe the action.
pub record Case : Type 0 where
  pub risk_class : RiskClass
  pub tool_id : Option String
  pub execution_mode : String
  pub data_classification : String
  pub requested_spend_microusd : ℕ
  pub authorized_spend_today_microusd : ℕ
  pub force_approval : Bool

abbrev pub is_r5 : RiskClass → Bool
is_r5 r5 = true
is_r5 _ = false

-- `tool_id is not None and (permission is None or not permission.enabled)`
abbrev pub tool_refused : Option String → Option GovernanceToolPermission → Bool
tool_refused none permission = false
tool_refused (some tool_id) none = true
tool_refused (some tool_id) (some permission) = not permission.enabled

-- The last two `return`s.
unfoldable pub by_risk : Case → ActionStatus × String
by_risk c =
    if c.force_approval || leb (risk_rank r2) (risk_rank c.risk_class)
    then (approval_required, risk_text c.risk_class ++ " requires owner approval")
    else (authorized, risk_text c.risk_class ++ " is permitted by the active policy")

-- The autonomy level is looked at in the autonomous mode.
unfoldable pub by_autonomy : AutonomyLevel → Case → ActionStatus × String
by_autonomy level_off c = (denied, "Autonomous execution is off")
by_autonomy recommend c = (approval_required, "RECOMMEND mode requires owner approval")
by_autonomy assisted c = (approval_required, "ASSISTED mode requires owner approval")
by_autonomy autonomous_low_risk c = by_risk c

unfoldable pub initial_decision :
    GlobalGovernanceControl
    → GovernanceSetting
    → Option GovernanceToolPermission
    → Case
    → ActionStatus × String
initial_decision controls settings permission c =
    if controls.kill_switch_enabled
    then (blocked, "The global kill switch is engaged")
    else if is_r5 c.risk_class
    then (denied, "R5 actions are prohibited")
    else if tool_refused c.tool_id permission
    then (denied, "The selected-business tool permission is disabled")
    else if c.data_classification == "restricted" && leb (risk_rank r2) (risk_rank c.risk_class)
    then (denied, "Restricted data cannot cross the external-action boundary")
    else if ltb settings.per_action_spend_limit_microusd c.requested_spend_microusd
    then (denied, "The requested spend exceeds the per-action limit")
    else if ltb settings.daily_spend_limit_microusd
        (c.authorized_spend_today_microusd + c.requested_spend_microusd)
    then (denied, "The requested spend exceeds the remaining daily limit")
    else if c.execution_mode == "autonomous"
    then by_autonomy settings.autonomy_level c
    else by_risk c
