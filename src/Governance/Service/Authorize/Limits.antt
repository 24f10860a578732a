-- ===== src/Governance/Service/Authorize/Limits.antt =====
-- What holds of an approved action that `authorize_in_session` lets run.
use foundora_ai.Base.{
  ℕ, suc, ◌+◌, ◌≡◌, ◌≢◌, ◌≤◌, ◌<◌, ap, ◌∙◌, arith, Bool, true, false, ◌&&◌, some, List, ok, find,
  put, sum_of-put, find_sound, find-of_Distinct, All, All-find, Option-cases, inl, inr, String,
  refl, sym, subst, Distinct, eq-of_beq, ◌==◌, nat_eq, string_eq, option_eq, Uuid, Datetime,
}
use mathlib.Core.List.{Memᴰ}
use foundora_ai.Governance.Registry.{r5, risk_rank}
use foundora_ai.Governance.Model.{
  GlobalGovernanceControl, GovernanceSetting, GovernanceToolPermission, GovernanceAction, Database,
  approved, authorized,
}
use foundora_ai.Governance.Decision.Laws.{ToolPermitted}
use foundora_ai.Governance.Service.{
  ActionRecord, day_start, is_authorized, spend_since, authorized_spend_today,
}
use foundora_ai.Governance.Service.Decide.{find_action}
use foundora_ai.Governance.Service.Authorize.{
  Authorization, authorized_action, authorize_in_session, permission_of,
}
use foundora_ai.Governance.Service.Authorize.Checked.{
  spend_of_granted, spend_of_unauthorized, Checked, Checked-of_authorize,
}

found_keys :
    (id business_id : Uuid) (actions : List GovernanceAction) (a : GovernanceAction)
    → find_action id business_id actions ≡ some a
    → (a.id ≡ id) × (a.business_id ≡ business_id)
unfolding find_action
found_keys id business_id actions a h =
    let both = find_sound (λ a. a.id == id && a.business_id == business_id) actions a h in
    let keys = both_hold (a.id == id) (a.business_id == business_id) both in
    (eq-of_beq a.id id keys.0, eq-of_beq a.business_id business_id keys.1)
  where
    both_hold : (b c : Bool) → (b && c) ≡ true → (b ≡ true) × (c ≡ true)
    both_hold true c h = (refl, h)
    both_hold false c h = absurd (ground arith)

-- The day's spend of the business grows by what the action asks for.
spend_added :
    (id business_id : Uuid) (at later : Datetime) (actions : List GovernanceAction)
    (a : GovernanceAction)
    → Distinct (λ y. y.id) actions
    → find_action id business_id actions ≡ some a
    → is_authorized a.status ≡ false
    → at ≤ later
    → authorized_spend_today business_id at
        (put (λ y. y.id == a.id) (authorized_action a later) actions)
      ≡ authorized_spend_today business_id at actions + a.requested_spend_microusd
unfolding find_action authorized_spend_today
spend_added id business_id at later actions a distinct found waiting h =
    let keys = found_keys id business_id actions a found in
    let alone : find (λ y. y.id == a.id) actions ≡ some a =
      ap (λ k. find (λ y. y.id == k) actions) keys.0
      ∙ find-of_Distinct (λ y. y.id) id (λ y. y.business_id == business_id) actions a distinct
          found in
    let balance =
      sum_of-put (spend_since business_id (day_start at)) (λ y. y.id == a.id)
        (authorized_action a later) actions a alone in
    let none_before = spend_of_unauthorized business_id (day_start at) a waiting in
    let all_after = spend_of_granted business_id a at later keys.1 h in
    omega (arith, rw none_before at (rw all_after at balance))

-- The row of the permission that lets the tool of an action run.
EnabledTool : Uuid → List GovernanceToolPermission → String → Type 0
EnabledTool business_id rows tool_id =
    (p : GovernanceToolPermission) × Memᴰ p rows
    × (p.business_id ≡ business_id)
    × (p.tool_id ≡ tool_id)
    × (p.enabled ≡ true)

EnabledTool-of_permitted :
    (business_id : Uuid) (rows ps : List GovernanceToolPermission) (tool_id : String)
    → All (λ p. (p.business_id ≡ business_id) × Memᴰ p rows) ps
    → ToolPermitted (some tool_id) (permission_of (some tool_id) ps)
    → EnabledTool business_id rows tool_id
unfolding permission_of EnabledTool
EnabledTool-of_permitted business_id rows ps tool_id listed permitted =
    elim (Option-cases (find (λ p. some p.tool_id == some tool_id) ps)) [
      | inl missing ↦ absurd (rw missing at permitted)
      | inr (p, found) ↦
          let row =
            All-find (λ p. (p.business_id ≡ business_id) × Memᴰ p rows)
              (λ p. some p.tool_id == some tool_id) ps p listed found in
          (
            p,
            row.1,
            row.0,
            eq-of_beq p.tool_id tool_id
                (find_sound (λ p. some p.tool_id == some tool_id) ps p found),
            rw found at permitted,
          )
    ]

-- The kill switch is off, the class is not prohibited, the tool is permitted, restricted data does not
-- leave, and the spend is counted and within limits.
pub record WithinLimits (z : Authorization) (a : GovernanceAction) (s s' : Database) : Type 0 where
  controls : GlobalGovernanceControl
  is_control : s.controls ≡ some controls
  switch_off : controls.kill_switch_enabled ≡ false
  not_prohibited : a.risk_class ≢ r5
  tool :
      (tool_id : String)
      → a.tool_id ≡ some tool_id
      → EnabledTool z.business_id s'.permissions tool_id
  not_crossing : a.data_classification ≡ "restricted" → risk_rank a.risk_class < 2
  at : Datetime
  setting : GovernanceSetting
  is_setting : find (λ y. y.business_id == z.business_id) s'.settings ≡ some setting
  within_action : a.requested_spend_microusd ≤ setting.per_action_spend_limit_microusd
  spend_added :
      authorized_spend_today z.business_id at s'.actions
      ≡ authorized_spend_today z.business_id at s.actions + a.requested_spend_microusd
  within_day :
      authorized_spend_today z.business_id at s'.actions ≤ setting.daily_spend_limit_microusd

within_of :
    (z : Authorization) (a : GovernanceAction) (s s' : Database) (c : Checked z a s s')
    → authorized_spend_today z.business_id (c.middle.clock c.middle.ticks) s'.actions
      ≡ authorized_spend_today z.business_id (c.middle.clock c.middle.ticks) s.actions
        + a.requested_spend_microusd
    → WithinLimits z a s s'
within_of z a s s' c added = record {
  controls = c.d.controls;
  is_control = c.rows.controls;
  switch_off = c.permitted.switch_off;
  not_prohibited = c.permitted.not_prohibited;
  tool = λ tool_id named.
      subst (λ rows. EnabledTool z.business_id rows tool_id) (sym c.same_permissions)
        (EnabledTool-of_permitted z.business_id c.middle.permissions c.d.permissions tool_id
          c.rows.permissions
          (subst (λ t. ToolPermitted t (permission_of t c.d.permissions)) named c.permitted.tool));
  not_crossing = c.permitted.not_crossing;
  at = c.middle.clock c.middle.ticks;
  setting = c.d.setting;
  is_setting = ap (find (λ y. y.business_id == z.business_id)) c.same_settings ∙ c.rows.setting;
  within_action = c.permitted.within_action;
  spend_added = added;
  within_day = omega (arith, added, c.permitted.within_day);
}

-- An approved action that comes out authorised passed every prohibition when it was authorised: the
-- kill switch is off, its class is not R5, its tool, if it names one, has a row of the business that is
-- enabled, and it is below R2 if its data is restricted. And its spend is counted in the day's: at the time `at` that the check read, the spend of the business
-- is what it was and the action's, and together they are within the daily limit of the business's
-- setting, as the action's is within the limit per action. The ids of the actions are distinct and
-- the clock does not go back.
pub authorize-WithinLimits :
    (z : Authorization) (s s' : Database) (x : ActionRecord) (a : GovernanceAction)
    → Distinct (λ y. y.id) s.actions
    → ((i : ℕ) → s.clock i ≤ s.clock (suc i))
    → find_action z.action_id z.business_id s.actions ≡ some a
    → a.status ≡ approved
    → authorize_in_session z s ≡ ok (x, s')
    → x.action.status ≡ authorized
    → WithinLimits z a s s'
authorize-WithinLimits z s s' x a distinct forward found status h result =
    let c = Checked-of_authorize z s s' x a found status h result in
    within_of z a s s' c (
      ap (authorized_spend_today z.business_id (c.middle.clock c.middle.ticks)) c.actions
      ∙ spend_added z.action_id z.business_id (c.middle.clock c.middle.ticks)
          (c.middle.clock (suc c.middle.ticks)) s.actions a distinct found (ap is_authorized status)
          (rw c.rows.same_clock (forward c.middle.ticks)))
