-- ===== src/Governance/Examples.antt =====
-- The policy engine on a concrete database: one business with a permitted tool and one open approval.
use foundora_ai.Base.{
  ◌+◌, ◌≤◌, ◌<◌, ◌≡◌, ◌≢◌, ◌⊎◌, refl, arith, ◌↔◌, String, true, false, none, some, [], ◌∷◌, ◌++◌,
  Result, ok, err, External, find, ◌==◌, nat_eq, ap, string_eq,
}
use mathlib.Core.List.{Memᴰ}
use foundora_ai.Governance.Registry.{
  r1, r3, r4, risk_rank, action_catalog, tool_catalog, find_action as find_descriptor, find_tool,
  tool_risks, spend_risks, minimum_risks, better, highest, classify_action,
}
use foundora_ai.Governance.Registry.Classify.{Carries, by_spend, classify-greatest}
use foundora_ai.Governance.Model.{
  GlobalGovernanceControl, GovernanceSetting, GovernanceToolPermission, GovernanceAction,
  ApprovalRequest, approval_required, approved, authorized, approval_pending, autonomous_low_risk,
  already_decided, GovernanceError, Database,
}
use foundora_ai.Governance.Decision.{Case, initial_decision, by_risk, by_autonomy}
use foundora_ai.Governance.Decision.Laws.{Permitted, decision-authorized}
use foundora_ai.Governance.Service.{
  ActionRecord, add_audit, microseconds_of_day, day_start, policy, setting_or_default,
  missing_permissions, insert_by_tool, sort_by_tool, all_permissions, defaults_under, defaults,
  authorized_spend_today,
}
use foundora_ai.Governance.Service.Evaluate.{
  ActionRequest, is_same_request, classified, permission_for, case_of, new_action, follow_up,
  finish_action, record_action, decide_action, evaluate_new, evaluate_key, evaluate_in_session,
}
use foundora_ai.Governance.Service.Evaluate.Outcome.{evaluate_authorized}
use foundora_ai.Governance.Service.Decide.{
  approve, reject, decided_approval, decided_action, write_verdict, settle_verdict, find_approval,
  find_action, decide_in_session,
}
use foundora_ai.Governance.Service.Decide.Final.{decide_reversed}
use foundora_ai.Governance.Service.Authorize.{
  Authorization, authorized_action, grant, permission_of, recheck, authorize_checked,
  authorize_current, authorize_runnable, authorize_found, authorize_in_session,
}
use foundora_ai.Business.Samples.{session_of}
use foundora_ai.Business.{AuthContext, resolve_selected_business}
use foundora_ai.Governance.Service.{selected_business}
use foundora_ai.Governance.Model.{blocked, controls_changed}
use foundora_ai.Governance.Service.Controls.{switched, set_kill_switch}
use foundora_ai.Governance.Service.Controls.{change_settings, update_settings, updated_setting}
use foundora_ai.Governance.Service.Controls.Settings.{update_settings_once}
use foundora_ai.Governance.Model.{level_off, settings_changed}
use foundora_ai.Governance.Service.Controls.Switch.{kill_switch_blocks, kill_switch_once}
use foundora_ai.Governance.Service.Authorize.Limits.{WithinLimits, authorize-WithinLimits}

abbrev ext : External
ext = record {
  uuid_text = λ _. "id";
  payload_valid = λ _ _. true;
  truncate = λ _ t. t;
  json_size = λ _. 2;
  correlation = "-";
}

abbrev controls : GlobalGovernanceControl
controls = record {
  kill_switch_enabled = false;
  reason = none;
  revision = 1;
  updated_by_owner_id = none;
  updated_at = 0;
}

abbrev setting : GovernanceSetting
setting = record {
  business_id = 1;
  autonomy_level = autonomous_low_risk;
  daily_spend_limit_microusd = 100;
  per_action_spend_limit_microusd = 60;
  revision = 1;
  updated_by_owner_id = none;
  updated_at = 0;
}

abbrev checks_permission : GovernanceToolPermission
checks_permission = record {
  business_id = 1;
  tool_id = "foundora.checks.website";
  enabled = true;
  revision = 1;
  updated_by_owner_id = none;
  updated_at = 0;
}

-- A publication that waits for its owner's decision.
abbrev publication : GovernanceAction
publication = record {
  id = 20;
  business_id = 1;
  policy_version_id = 3;
  workflow_run_id = none;
  workflow_step_key = none;
  action_type = "external.publication";
  actor_type = "owner";
  actor_id = none;
  tool_id = none;
  risk_class = r3;
  execution_mode = "manual";
  data_classification = "internal";
  requested_spend_microusd = 50;
  frequency_key = none;
  target = none;
  status = approval_required;
  rationale = "R3 requires owner approval";
  idempotency_key = "publish-1";
  created_by_owner_id = some 9;
  created_at = 10;
  updated_at = 10;
  authorized_at = none;
}

abbrev pending_approval : ApprovalRequest
pending_approval = record {
  id = 21;
  action_id = 20;
  business_id = 1;
  status = approval_pending;
  prompt = "Publishes content to a public audience.";
  decision_reason = none;
  requested_by_owner_id = some 9;
  decided_by_owner_id = none;
  requested_at = 10;
  decided_at = none;
}

abbrev start : Database
start = record {
  directory = record {
    sessions = session_of 7 9 (some 1) ∷ [];
    businesses = record { id = 1; owner_id = 9; name = "Shop"; archived_at = none } ∷ [];
  };
  policies =
      record {
        id = "foundora-default-governance";
        display_name = "Default";
        enabled = true;
        current_version = 1;
      }
      ∷ [];
  policy_versions =
      record {
        id = 3;
        policy_id = "foundora-default-governance";
        version = 1;
        description = "Initial";
      }
      ∷ [];
  controls = some controls;
  settings = setting ∷ [];
  permissions = checks_permission ∷ [];
  actions = publication ∷ [];
  approvals = pending_approval ∷ [];
  audits = [];
  outbox = record { events = []; deliveries = []; next_uuid = 30 };
  clock = λ k. 1_000 + k;
  ticks = 0;
}

abbrev result_of : Result GovernanceError (ActionRecord × Database) → ActionRecord
result_of (ok (x, s)) = x
result_of (err e) = record { action = publication; approval = none }

abbrev state_of : Result GovernanceError (ActionRecord × Database) → Database
state_of (ok (x, s)) = s
state_of (err e) = start

-- What the catalogue gives a publication that spends.
spends : classify_action "external.publication" none 50 none ≡ ok r4
unfolding classify_action action_catalog find_descriptor tool_risks spend_risks minimum_risks
    highest better
spends = refl

classify-greatest_example :
    Carries "external.publication" none 50 none r4 × (risk_rank r4 ≤ risk_rank r4)
classify-greatest_example =
    classify-greatest "external.publication" none 50 none r4 r4 spends (by_spend (omega arith) refl)

abbrev checks_case : Case
checks_case = record {
  risk_class = r1;
  tool_id = some "foundora.checks.website";
  execution_mode = "autonomous";
  data_classification = "internal";
  requested_spend_microusd = 0;
  authorized_spend_today_microusd = 0;
  force_approval = false;
}

decision-authorized_example :
    ((initial_decision controls setting (some checks_permission) checks_case).0 ≡ authorized) ↔ (
      Permitted controls setting (some checks_permission) checks_case
      × (risk_rank r1 < 2)
      × (checks_case.force_approval ≡ false)
      × ((checks_case.execution_mode ≢ "autonomous")
          ⊎ (setting.autonomy_level ≡ autonomous_low_risk)))
decision-authorized_example =
    decision-authorized controls setting (some checks_permission) checks_case

abbrev run_checks : ActionRequest
run_checks = record {
  business_id = 1;
  action_type = "internal.content.create";
  actor_type = "agent";
  actor_id = none;
  tool_id = some "foundora.checks.website";
  execution_mode = "autonomous";
  data_classification = "internal";
  requested_spend_microusd = 0;
  frequency_key = none;
  target = none;
  idempotency_key = "checks-1";
  created_by_owner_id = some 9;
  workflow_run_id = none;
  workflow_step_key = none;
  minimum_risk_class = none;
  force_approval = false;
  approval_prompt = none;
}

abbrev checked : Result GovernanceError (ActionRecord × Database)
checked = evaluate_in_session ext [] run_checks start

checked_ok :
    (checked ≡ ok (result_of checked, state_of checked))
    × ((result_of checked).action.status ≡ authorized)
unfolding evaluate_in_session classified classify_action action_catalog find_descriptor tool_catalog
    find_tool tool_risks spend_risks minimum_risks highest better policy defaults defaults_under
    setting_or_default all_permissions missing_permissions sort_by_tool insert_by_tool evaluate_key
    is_same_request evaluate_new decide_action authorized_spend_today day_start microseconds_of_day
    permission_for case_of initial_decision by_autonomy by_risk record_action new_action add_audit
    finish_action follow_up
checked_ok = (refl, refl)

evaluate_authorized_example :
    ((state_of checked).actions ≡ start.actions ++ (result_of checked).action ∷ [])
    × ((c : GlobalGovernanceControl) × (start.controls ≡ some c) × (c.kill_switch_enabled ≡ false))
    × (run_checks.requested_spend_microusd ≡ 0)
    × (classify_action run_checks.action_type run_checks.tool_id 0 none
        ≡ ok (result_of checked).action.risk_class)
    × (risk_rank (result_of checked).action.risk_class < 2)
    × (run_checks.force_approval ≡ false)
    × ((run_checks.tool_id ≡ none)
        ⊎ ((p : GovernanceToolPermission) × Memᴰ p (state_of checked).permissions
            × (p.business_id ≡ 1)
            × (run_checks.tool_id ≡ some p.tool_id)
            × (p.enabled ≡ true)))
    × ((run_checks.execution_mode ≢ "autonomous")
        ⊎ ((x : GovernanceSetting) × (find (λ x. x.business_id == 1) (state_of checked).settings
              ≡ some x)
            × (x.autonomy_level ≡ autonomous_low_risk)))
evaluate_authorized_example =
    evaluate_authorized ext [] run_checks start (state_of checked) (result_of checked) checked_ok.0
      is_new checked_ok.1
  where
    is_new : find (is_same_request run_checks) start.actions ≡ none
    is_new = unfold is_same_request in refl

abbrev decided : Result GovernanceError (ActionRecord × Database)
decided = decide_in_session 1 21 approve (some "fine") "decide-1" 9 start

decided_ok : decided ≡ ok (result_of decided, state_of decided)
unfolding decide_in_session find_approval find_action settle_verdict write_verdict decided_approval
    decided_action add_audit
decided_ok = refl

found_approval : find_approval 21 1 start.approvals ≡ some pending_approval
unfolding find_approval
found_approval = refl

found_action : find_action 20 1 start.actions ≡ some publication
unfolding find_action
found_action = refl

abbrev new_key : String
new_key = "decide-2"

decide_reversed_example :
    decide_in_session 1 21 reject none new_key 9 (state_of decided) ≡ err already_decided
decide_reversed_example =
    decide_reversed 1 21 approve (some "fine") "decide-1" 9 start pending_approval publication
      (result_of decided) (state_of decided) found_approval found_action refl refl decided_ok reject
      none new_key 9 other_key refl (λ e. ground arith)
  where
    other_key : new_key ≢ "decide-1"
    other_key e = let h : false ≡ true = ap (λ (t : String). t == "decide-1") e in ground arith

-- The publication once it is approved.
abbrev ready : GovernanceAction
ready = record publication { status = approved }

abbrev before_run : Database
before_run = record start { actions = ready ∷ [] }

abbrev run : Authorization
run = record {
  business_id = 1;
  action_id = 20;
  idempotency_key = "run-1";
  owner_id = some 9;
  force_recheck = false;
}

abbrev ran : Result GovernanceError (ActionRecord × Database)
ran = authorize_in_session run before_run

ran_ok : (ran ≡ ok (result_of ran, state_of ran)) × ((result_of ran).action.status ≡ authorized)
unfolding authorize_in_session find_action authorize_found authorize_runnable policy
    authorize_current defaults defaults_under setting_or_default all_permissions missing_permissions
    tool_catalog sort_by_tool insert_by_tool authorized_spend_today day_start microseconds_of_day
    recheck permission_of initial_decision by_risk authorize_checked grant authorized_action
    add_audit
ran_ok = (refl, refl)

authorize-WithinLimits_example : WithinLimits run ready before_run (state_of ran)
authorize-WithinLimits_example =
    authorize-WithinLimits run before_run (state_of ran) (result_of ran) ready (tt, tt)
      (λ i. omega arith) found refl ran_ok.0 ran_ok.1
  where
    found : find_action 20 1 before_run.actions ≡ some ready
    found = unfold find_action in refl

abbrev owner : AuthContext
owner = record { owner_id = 9; session_id = 7 }

abbrev engaged : Result GovernanceError (GlobalGovernanceControl × Database)
engaged = set_kill_switch owner true (some "incident") 1 start

abbrev engaged_state : Result GovernanceError (GlobalGovernanceControl × Database) → Database
engaged_state (ok (c, s)) = s
engaged_state (err e) = start

abbrev engaged_controls :
    Result GovernanceError (GlobalGovernanceControl × Database) → GlobalGovernanceControl
engaged_controls (ok (c, s)) = c
engaged_controls (err e) = controls

engaged_ok :
    (engaged ≡ ok (engaged_controls engaged, engaged_state engaged))
    × ((engaged_state engaged).actions ≡ publication ∷ [])
unfolding set_kill_switch selected_business resolve_selected_business switched add_audit
engaged_ok = (refl, refl)

-- The evaluation of `run_checks` while the switch is engaged.
abbrev stopped : Result GovernanceError (ActionRecord × Database)
stopped = evaluate_in_session ext [] run_checks (engaged_state engaged)

stopped_ok :
    (stopped ≡ ok (result_of stopped, state_of stopped))
    × (find (is_same_request run_checks) (engaged_state engaged).actions ≡ none)
unfolding set_kill_switch selected_business resolve_selected_business switched evaluate_in_session
    classified classify_action action_catalog find_descriptor tool_catalog find_tool tool_risks
    spend_risks minimum_risks highest better policy defaults defaults_under setting_or_default
    all_permissions missing_permissions sort_by_tool insert_by_tool evaluate_key is_same_request
    evaluate_new decide_action authorized_spend_today day_start microseconds_of_day permission_for
    case_of initial_decision record_action new_action add_audit finish_action follow_up
stopped_ok = (refl, refl)

kill_switch_blocks_example : (result_of stopped).action.status ≡ blocked
kill_switch_blocks_example =
    kill_switch_blocks owner (some "incident") 1 start (engaged_state engaged) (state_of stopped)
      (engaged_controls engaged) ext [] run_checks (result_of stopped) engaged_ok.0 stopped_ok.1
      stopped_ok.0

owner_known : resolve_selected_business start.directory owner ≢ none
unfolding resolve_selected_business
owner_known e = ground arith

kill_switch_once_example :
    set_kill_switch owner false none 1 (engaged_state engaged) ≡ err controls_changed
kill_switch_once_example =
    kill_switch_once owner owner true false (some "incident") none 1 start (engaged_state engaged)
      (engaged_controls engaged) engaged_ok.0 owner_known

abbrev changed : Result GovernanceError (GovernanceSetting × Database)
changed = update_settings owner level_off 80 40 1 start

abbrev changed_state : Result GovernanceError (GovernanceSetting × Database) → Database
changed_state (ok (x, s)) = s
changed_state (err e) = start

abbrev changed_setting : Result GovernanceError (GovernanceSetting × Database) → GovernanceSetting
changed_setting (ok (x, s)) = x
changed_setting (err e) = setting

changed_ok : changed ≡ ok (changed_setting changed, changed_state changed)
unfolding update_settings selected_business resolve_selected_business defaults defaults_under
    setting_or_default all_permissions missing_permissions tool_catalog sort_by_tool insert_by_tool
    change_settings updated_setting add_audit
changed_ok = refl

update_settings_once_example :
    ((changed_setting changed).revision ≡ 2)
    × (update_settings owner autonomous_low_risk 90 90 1 (changed_state changed)
        ≡ err settings_changed)
update_settings_once_example =
    update_settings_once owner level_off autonomous_low_risk 80 90 40 90 1 start
      (changed_state changed) (changed_setting changed) changed_ok
