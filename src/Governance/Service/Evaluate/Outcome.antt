-- ===== src/Governance/Service/Evaluate/Outcome.antt =====
-- What holds of an action that `evaluate_in_session` records.
use foundora_ai.Base.{
  ℕ, ◌≡◌, ◌≢◌, ◌<◌, ◌⊎◌, refl, sym, ap, ◌∙◌, subst, arith, String, true, false, Option, none, some,
  List, [], ◌∷◌, ◌++◌, ok, ltb, ltb→lt, All-find, find_sound, if◌then◌else◌, Bool-cases, inl, inr,
  find, eq-of_beq, ◌==◌, nat_eq, string_eq, Uuid, External,
}
use mathlib.Core.List.{Memᴰ}
use foundora_ai.Events.Contracts.{EventConsumer}
use foundora_ai.Governance.Registry.{RiskClass, r4, risk_rank, classify_action}
use foundora_ai.Governance.Registry.Classify.{by_spend, classify-greatest}
use foundora_ai.Governance.Model.{
  GlobalGovernanceControl, GovernanceSetting, GovernanceToolPermission, GovernanceAction, Database,
  authorized, autonomous_low_risk,
}
use foundora_ai.Governance.Decision.Laws.{ToolPermitted, decision-authorized}
use foundora_ai.Governance.Service.{ActionRecord, Defaults}
use foundora_ai.Governance.Service.Frames.{DefaultRows}
use foundora_ai.Governance.Service.Evaluate.{
  ActionRequest, is_same_request, new_action, evaluate_in_session, permission_for, case_of,
}
use foundora_ai.Governance.Service.Evaluate.Recorded.{Evaluated-of_ok}

pub spend_is_r4 :
    (action_type : String) (tool_id : Option String) (requested : ℕ) (minimum : Option String)
    (r : RiskClass)
    → classify_action action_type tool_id requested minimum ≡ ok r
    → risk_rank r < 2
    → requested ≡ 0
spend_is_r4 action_type tool_id requested minimum r h low = elim (Bool-cases (ltb 0 requested)) [
  | inl t ↦ absurd (
      omega (
        arith,
        (classify-greatest action_type tool_id requested minimum r r4 h
            (by_spend (ltb→lt 0 requested t) refl)).1,
      ))
  | inr f ↦ ground arith
]

-- The permission that a tool's name finds is a row of the business, for that tool.
permitted_row :
    (business_id : Uuid) (s s' : Database) (d : Defaults) (tool_id : Option String)
    → DefaultRows business_id s d s'
    → ToolPermitted tool_id (permission_for tool_id d.permissions)
    → (tool_id ≡ none)
      ⊎ ((p : GovernanceToolPermission) × Memᴰ p s'.permissions
          × (p.business_id ≡ business_id)
          × (tool_id ≡ some p.tool_id)
          × (p.enabled ≡ true))
unfolding permission_for
permitted_row business_id s s' d none rows h = inl refl
permitted_row business_id s s' d (some u) rows h = elim (Bool-cases (u == "")) [
  | inl blank ↦
      absurd (subst (λ b. ToolPermitted (some u) (if b then none else search_for)) blank h)
  | inr named ↦
      row search_for refl
        (subst (λ b. ToolPermitted (some u) (if b then none else search_for)) named h)
]
  where
    search_for : Option GovernanceToolPermission
    search_for = find (λ p. p.tool_id == u) d.permissions

    row :
        (o : Option GovernanceToolPermission)
        → search_for ≡ o
        → ToolPermitted (some u) o
        → (some u ≡ none)
          ⊎ ((p : GovernanceToolPermission) × Memᴰ p s'.permissions
              × (p.business_id ≡ business_id)
              × (some u ≡ some p.tool_id)
              × (p.enabled ≡ true))
    row none found k = absurd k
    row (some p) found k =
        let (business, member) =
          All-find _ (λ p. p.tool_id == u) d.permissions p rows.permissions found in
        inr (
          p,
          member,
          business,
          ap some (
              sym (eq-of_beq p.tool_id u (find_sound (λ p. p.tool_id == u) d.permissions p found))),
          k,
        )

-- An action that is new under its idempotency key and comes out authorised, with no owner asked:
-- it is stored; the kill switch is off; the action spends nothing; its class, which is the one that
-- the catalogue gives the request, lies below R2; no approval was forced; its tool, if it names one,
-- has an enabled permission of the business; and if it runs autonomously, the setting of the
-- business is AUTONOMOUS_LOW_RISK.
pub evaluate_authorized :
    (ext : External) (consumers : List EventConsumer) (r : ActionRequest) (s s' : Database)
    (x : ActionRecord)
    → evaluate_in_session ext consumers r s ≡ ok (x, s')
    → find (is_same_request r) s.actions ≡ none
    → x.action.status ≡ authorized
    → (s'.actions ≡ s.actions ++ x.action ∷ [])
      × ((c : GlobalGovernanceControl) × (s.controls ≡ some c) × (c.kill_switch_enabled ≡ false))
      × (r.requested_spend_microusd ≡ 0)
      × (classify_action r.action_type r.tool_id r.requested_spend_microusd r.minimum_risk_class
          ≡ ok x.action.risk_class)
      × (risk_rank x.action.risk_class < 2)
      × (r.force_approval ≡ false)
      × ((r.tool_id ≡ none)
          ⊎ ((p : GovernanceToolPermission) × Memᴰ p s'.permissions
              × (p.business_id ≡ r.business_id)
              × (r.tool_id ≡ some p.tool_id)
              × (p.enabled ≡ true)))
      × ((r.execution_mode ≢ "autonomous")
          ⊎ ((x : GovernanceSetting) × (find (λ x. x.business_id == r.business_id) s'.settings
                ≡ some x)
              × (x.autonomy_level ≡ autonomous_low_risk)))
unfolding new_action case_of
evaluate_authorized ext consumers r s s' x h fresh status =
    let ev = Evaluated-of_ok ext consumers r s s' x h fresh in
    let decision = ap (λ (a : GovernanceAction). a.status) (sym ev.action_is) ∙ status in
    let class : x.action.risk_class ≡ ev.risk =
      ap (λ (a : GovernanceAction). a.risk_class) ev.action_is in
    let (permitted, low, unforced, mode) =
      (decision-authorized ev.d.controls ev.d.setting _ _).0 decision in
    let st = ev.stored decision in
    (
      st.actions,
      (ev.d.controls, ev.rows.controls, permitted.switch_off),
      spend_is_r4 _ _ _ _ ev.risk ev.class_is low,
      rw class ev.class_is,
      rw class low,
      unforced,
      rw (st.same_permissions)
          (permitted_row r.business_id s ev.middle ev.d r.tool_id ev.rows permitted.tool),
      rw (st.same_settings) (at_level ev.d.setting ev.middle.settings ev.rows.setting mode),
    )
  where
    at_level :
        (y : GovernanceSetting) (ys : List GovernanceSetting)
        → find (λ x. x.business_id == r.business_id) ys ≡ some y
        → (r.execution_mode ≢ "autonomous") ⊎ (y.autonomy_level ≡ autonomous_low_risk)
        → (r.execution_mode ≢ "autonomous")
          ⊎ ((x : GovernanceSetting) × (find (λ x. x.business_id == r.business_id) ys ≡ some x)
              × (x.autonomy_level ≡ autonomous_low_risk))
    at_level y ys found (inl m) = inl m
    at_level y ys found (inr l) = inr (y, found, l)
