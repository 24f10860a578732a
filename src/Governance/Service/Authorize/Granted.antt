-- ===== src/Governance/Service/Authorize/Granted.antt =====
-- What a run of `authorize_checked` that authorises an action has written.
use foundora_ai.Base.{
  ◌≡◌, ◌≢◌, refl, sym, ap, arith, String, true, false, Option, ok, Bool-cases, ok-injective, inl,
  inr, put, ◌==◌, nat_eq, string_eq, option_eq,
}
use foundora_ai.Governance.Model.{
  GovernanceAction, ApprovalRequest, Database, ActionStatus, authorized,
}
use foundora_ai.Governance.Service.{ActionRecord, add_audit, is_authorized}
use foundora_ai.Governance.Service.Authorize.{
  Authorization, is_refused, withdrawn, block, authorized_action, grant, authorize_checked,
}

module _ (z : Authorization) (a : GovernanceAction) (p : Option ApprovalRequest) where
  -- A block does not authorise.
  pub block-status :
      (status : ActionStatus) (rationale audited : String) (s s' : Database) (x : ActionRecord)
      → is_authorized status ≡ false
      → block z a p status rationale audited s ≡ ok (x, s')
      → x.action.status ≢ authorized
  unfolding block add_audit withdrawn
  block-status status rationale audited s s' x n h e = elim (Bool-cases (is_authorized a.status)) [
    | inl t ↦ ground arith
    | inr f ↦ ground arith
  ]

  pub record Granted (s s' : Database) (x : ActionRecord) : Type 0 where
    pub action_is : x.action ≡ authorized_action a (s.clock s.ticks)
    pub actions :
        s'.actions ≡ put (λ y. y.id == a.id) (authorized_action a (s.clock s.ticks)) s.actions
    pub same_settings : s'.settings ≡ s.settings
    pub same_permissions : s'.permissions ≡ s.permissions

  pub Granted-of_grant :
      (s s' : Database) (x : ActionRecord) → grant z a p s ≡ ok (x, s') → Granted s s' x
  unfolding grant add_audit authorized_action
  Granted-of_grant s s' x h =
      let (result, state) = ok-injective (grant z a p s) refl h in
      record {
        action_is = ap (λ (y : ActionRecord). y.action) (sym result);
        actions = ap (λ (t : Database). t.actions) (sym state);
        same_settings = ap (λ (t : Database). t.settings) (sym state);
        same_permissions = ap (λ (t : Database). t.permissions) (sym state);
      }

  pub refused_status :
      (status : ActionStatus) → is_refused status ≡ true → is_authorized status ≡ false
  refused_status authorized h = absurd (ground arith)
  refused_status _ h = refl

  pub Granted-of_checked :
      (decision : ActionStatus × String) (s s' : Database) (x : ActionRecord)
      → authorize_checked z a p decision s ≡ ok (x, s')
      → x.action.status ≡ authorized
      → (is_refused decision.0 ≡ false) × Granted s s' x
  unfolding authorize_checked
  Granted-of_checked decision s s' x h e = elim (Bool-cases (is_refused decision.0)) [
    | inl t ↦ absurd (
        block-status decision.0 decision.1 decision.1 s s' x (refused_status decision.0 t)
          (rw t at h) e)
    | inr f ↦ (f, Granted-of_grant s s' x (rw f at h))
  ]
