-- ===== src/Governance/Service/Controls.antt =====
-- `update_settings`, `set_tool_permission` and `set_kill_switch` of governance/service.py.
pub mod Switch
pub mod Settings
use foundora_ai.Base.{
  ℕ, ◌+◌, String, Bool, true, false, ◌&&◌, not, Option, none, some, List, [], ◌∷◌, ok, err, Tx,
  pure, or_raise, raise_if, ◌>>=◌, ◌>>◌, gets, modify, continue, ◌==◌, ◌!=◌, nat_eq, string_eq,
  if◌then◌else◌, find, put, Uuid, Datetime, Details, Value, null, text, flag, number,
}
use foundora_ai.Business.{AuthContext}
use foundora_ai.Governance.Registry.{ToolDescriptor, find_tool}
use foundora_ai.Governance.Model.{
  GlobalGovernanceControl, GovernanceSetting, GovernanceToolPermission, AutonomyLevel, level_off,
  recommend, assisted, autonomous_low_risk, not_found, settings_changed, permission_changed,
  controls_changed, reason_required,
}
use foundora_ai.Governance.Service.{
  Gov, now, Audit, add_audit, Defaults, defaults, selected_business,
}

abbrev level_text : AutonomyLevel → String
level_text level_off = "OFF"
level_text recommend = "RECOMMEND"
level_text assisted = "ASSISTED"
level_text autonomous_low_risk = "AUTONOMOUS_LOW_RISK"

abbrev owner_audit : Option Uuid → Uuid → Details → Audit
owner_audit business_id owner_id details = record {
  business_id = business_id;
  action_id = none;
  approval_request_id = none;
  actor_owner_id = some owner_id;
  idempotency_key = none;
  details = details;
}

unfoldable pub updated_setting :
    GovernanceSetting → AutonomyLevel → ℕ → ℕ → Uuid → Datetime → GovernanceSetting
updated_setting x level daily per_action owner_id at = record x {
  autonomy_level = level;
  daily_spend_limit_microusd = daily;
  per_action_spend_limit_microusd = per_action;
  revision = x.revision + 1;
  updated_by_owner_id = some owner_id;
  updated_at = at;
}

-- `update_settings` from the check of the revision on.
unfoldable pub change_settings :
    AuthContext → Uuid → Defaults → AutonomyLevel → ℕ → ℕ → ℕ → Gov GovernanceSetting
change_settings context business_id d level daily per_action revision = do
  raise_if (d.setting.revision != revision) settings_changed
  at ← now
  modify (λ s. record s {
    settings =
        put (λ x. x.business_id == business_id)
          (updated_setting d.setting level daily per_action context.owner_id at) s.settings;
  })
  add_audit "business_controls_updated" (
      owner_audit (some business_id) context.owner_id (
        ("autonomy_level", text (level_text level))
        ∷ ("daily_spend_limit_microusd", number daily)
        ∷ ("per_action_spend_limit_microusd", number per_action)
        ∷ ("revision", number (d.setting.revision + 1))
        ∷ []))
  pure (updated_setting d.setting level daily per_action context.owner_id at)

unfoldable pub update_settings : AuthContext → AutonomyLevel → ℕ → ℕ → ℕ → Gov GovernanceSetting
update_settings context level daily per_action revision = do
  business ← selected_business context
  d ← defaults business.id (some context.owner_id)
  change_settings context business.id d level daily per_action revision

pub updated_permission :
    GovernanceToolPermission → Bool → Uuid → Datetime → GovernanceToolPermission
updated_permission p enabled owner_id at = record p {
  enabled = enabled;
  revision = p.revision + 1;
  updated_by_owner_id = some owner_id;
  updated_at = at;
}

-- `defaults` makes the permission of every catalogued tool, so the search does not fail.
pub set_tool_permission : AuthContext → String → Bool → ℕ → Gov GovernanceToolPermission
set_tool_permission context tool_id enabled revision = do
  or_raise not_found (find_tool tool_id)
  business ← selected_business context
  d ← defaults business.id (some context.owner_id)
  p ← or_raise not_found (find (λ p. p.tool_id == tool_id) d.permissions)
  raise_if (p.revision != revision) permission_changed
  at ← now
  modify (λ s. record s {
    permissions =
        put (λ x. x.business_id == business.id && x.tool_id == tool_id)
          (updated_permission p enabled context.owner_id at) s.permissions;
  })
  add_audit "tool_permission_updated" (
      owner_audit (some business.id) context.owner_id (
        ("tool_id", text tool_id)
        ∷ ("enabled", flag enabled)
        ∷ ("revision", number (p.revision + 1))
        ∷ []))
  pure (updated_permission p enabled context.owner_id at)

-- `not reason`
abbrev pub is_blank : Option String → Bool
is_blank none = true
is_blank (some reason) = reason == ""

abbrev json_text : Option String → Value
json_text none = null
json_text (some s) = text s

unfoldable pub switched :
    GlobalGovernanceControl → Bool → Option String → Uuid → Datetime → GlobalGovernanceControl
switched c enabled reason owner_id at = record c {
  kill_switch_enabled = enabled;
  reason = if enabled then reason else none;
  revision = c.revision + 1;
  updated_by_owner_id = some owner_id;
  updated_at = at;
}

unfoldable pub set_kill_switch :
    AuthContext → Bool → Option String → ℕ → Gov GlobalGovernanceControl
set_kill_switch context enabled reason revision = do
  selected_business context
  found ← gets (λ s. s.controls)
  c ← or_raise not_found found
  raise_if (c.revision != revision) controls_changed
  raise_if (enabled && is_blank reason) reason_required
  at ← now
  modify (λ s. record s { controls = some (switched c enabled reason context.owner_id at) })
  add_audit (if enabled then "kill_switch_engaged" else "kill_switch_released") (
      owner_audit none context.owner_id (
        ("reason", json_text (if enabled then reason else none))
        ∷ ("revision", number (c.revision + 1))
        ∷ []))
  pure (switched c enabled reason context.owner_id at)
