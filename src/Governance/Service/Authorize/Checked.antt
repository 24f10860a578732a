-- ===== src/Governance/Service/Authorize/Checked.antt =====
-- What a run of `authorize_in_session` that authorises an action has read.
use foundora_ai.Base.{
  suc, ◌≡◌, ◌≤◌, refl, ap, arith, Bool, true, false, ◌&&◌, Option, some, ok, Result-cases,
  Bool-cases, inl, inr, find, put, eq_self, ◌==◌, ◌!=◌, nat_eq, string_eq, option_eq, if◌then◌else◌,
  Uuid, Datetime,
}
use foundora_ai.Governance.Model.{
  GovernanceAction, ApprovalRequest, Database, PolicyVersion, ActionStatus, approved, authorized,
  blocked,
}
use foundora_ai.Governance.Decision.Laws.{Permitted, Permitted-of_passed, is_refusal}
use foundora_ai.Governance.Service.{
  ActionRecord, Defaults, defaults, policy, day_start, is_authorized, authorized_since, spend_since,
  authorized_spend_today,
}
use foundora_ai.Governance.Service.Frames.{policy_keeps, DefaultRows, DefaultRows-of_ok}
use foundora_ai.Governance.Service.Decide.{find_action}
use foundora_ai.Governance.Service.Authorize.{
  Authorization, is_refused, may_run, block, authorized_action, permission_of, recheck_case,
  recheck, authorize_checked, authorize_current, authorize_runnable, authorize_found,
  authorize_in_session,
}
use foundora_ai.Governance.Service.Authorize.Granted.{block-status, Granted-of_checked}

pub refusals : (status : ActionStatus) → is_refused status ≡ false → is_refusal status ≡ false
refusals blocked h = h
refusals _ h = h

pub day_start-le : (at : Datetime) → day_start at ≤ at
unfolding day_start
day_start-le at = omega arith

pub counted : (start later : Datetime) → start ≤ later → authorized_since start (some later) ≡ true
counted start later h = ground arith

pub spend_of_granted :
    (business_id : Uuid) (a : GovernanceAction) (at later : Datetime)
    → a.business_id ≡ business_id
    → at ≤ later
    → spend_since business_id (day_start at) (authorized_action a later)
      ≡ a.requested_spend_microusd
unfolding authorized_action
spend_of_granted business_id a at later e h =
    rw e (
      rw (eq_self business_id) (rw (counted (day_start at) later (omega (arith, day_start-le at)))))

pub spend_of_unauthorized :
    (business_id : Uuid) (start : Datetime) (a : GovernanceAction)
    → is_authorized a.status ≡ false
    → spend_since business_id start a ≡ 0
spend_of_unauthorized business_id start a h = rw h (none_counted (a.business_id == business_id))
  where
    none_counted : (b : Bool) → (if b && false then a.requested_spend_microusd else 0) ≡ 0
    none_counted true = refl
    none_counted false = refl

-- What a run that authorised the action has read.
pub record Checked (z : Authorization) (a : GovernanceAction) (s s' : Database) : Type 0 where
  pub d : Defaults
  pub middle : Database
  pub rows : DefaultRows z.business_id s d middle
  pub permitted :
      Permitted d.controls d.setting (permission_of a.tool_id d.permissions) (
        recheck_case a (authorized_spend_today z.business_id (middle.clock middle.ticks) s.actions))
  pub actions :
      s'.actions
      ≡ put (λ y. y.id == a.id) (authorized_action a (middle.clock (suc middle.ticks))) s.actions
  pub same_settings : s'.settings ≡ middle.settings
  pub same_permissions : s'.permissions ≡ middle.permissions

module _ (z : Authorization) (a : GovernanceAction) (p : Option ApprovalRequest) (s s' : Database)
    (x : ActionRecord) (result : x.action.status ≡ authorized) where
  pub after_defaults :
      (d : Defaults) (s1 : Database)
      → DefaultRows z.business_id s d s1
      → authorize_checked z a p
          (recheck a d (authorized_spend_today z.business_id (s1.clock s1.ticks) s1.actions))
          (record s1 { ticks = suc s1.ticks })
        ≡ ok (x, s')
      → Checked z a s s'
  unfolding recheck
  after_defaults d s1 rows h =
      let (passed, g) = Granted-of_checked z a p _ _ s' x h result in
      record {
        d = d;
        middle = s1;
        rows = rows;
        permitted =
            Permitted-of_passed d.controls d.setting _ _
              (refusals _ (rw (← rows.same_actions) passed));
        actions = rw (← rows.same_actions) g.actions;
        same_settings = g.same_settings;
        same_permissions = g.same_permissions;
      }

  pub of_current : authorize_current z a p s ≡ ok (x, s') → Checked z a s s'
  unfolding authorize_current
  of_current h = elim (Result-cases (defaults z.business_id z.owner_id s)) [
    | inr (e, bad) ↦ absurd (ground arith)
    | inl ((d, s1), good) ↦
        after_defaults d s1 (DefaultRows-of_ok z.business_id z.owner_id s s1 d good) (rw good at h)
  ]

  pub of_runnable : authorize_runnable z a p s ≡ ok (x, s') → Checked z a s s'
  unfolding authorize_runnable
  of_runnable h = elim (Result-cases (policy s)) [
    | inr (e, bad) ↦ absurd (ground arith)
    | inl ((rows, s1), good) ↦ by_version rows.1 s1 (policy_keeps s s1 rows good) (rw good at h)
  ]
    where
      by_version :
          (v : PolicyVersion) (s1 : Database)
          → s1 ≡ s
          → (if a.policy_version_id != v.id
                then block z a p blocked
                    "The active policy version changed; re-evaluation is required"
                    "The active policy version changed"
                else authorize_current z a p)
              s1
            ≡ ok (x, s')
          → Checked z a s s'
      by_version v s1 same k = elim (Bool-cases (a.policy_version_id != v.id)) [
        | inl t ↦ absurd (block-status z a p blocked _ _ s1 s' x refl (rw t at k) result)
        | inr f ↦ of_current (rw same at (rw f at k))
      ]

  pub of_found : a.status ≡ approved → authorize_found z a p s ≡ ok (x, s') → Checked z a s s'
  unfolding authorize_found
  of_found e h = of_runnable (rw (ap is_authorized e) at (rw (ap may_run e) at h))

pub Checked-of_authorize :
    (z : Authorization) (s s' : Database) (x : ActionRecord) (a : GovernanceAction)
    → find_action z.action_id z.business_id s.actions ≡ some a
    → a.status ≡ approved
    → authorize_in_session z s ≡ ok (x, s')
    → x.action.status ≡ authorized
    → Checked z a s s'
unfolding authorize_in_session
Checked-of_authorize z s s' x a found status h result =
    of_found z a (find (λ p. p.action_id == a.id) s.approvals) s s' x result status (rw found at h)
