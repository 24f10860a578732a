-- ===== src/Governance/Decision/Laws.antt =====
-- When `_initial_decision` lets an action through.
use text.Mathlib.TextEquality.{eq_iff}
use foundora_ai.Base.{
  ℕ, ◌+◌, ◌≤◌, ◌<◌, ◌≡◌, ◌≢◌, ◌⊎◌, ◌↔◌, arith, String, Bool, true, false, ◌&&◌, inl, inr, refl, ltb,
  leb, Bool-cases, eq-of_beq, Option, none, some, ◌==◌, string_eq, if◌then◌else◌,
}
use foundora_ai.Governance.Registry.{RiskClass, r5, risk_rank}
use foundora_ai.Governance.Model.{
  GlobalGovernanceControl, GovernanceSetting, GovernanceToolPermission, AutonomyLevel,
  autonomous_low_risk, ActionStatus, authorized, denied, blocked,
}
use foundora_ai.Governance.Decision.{
  Case, is_r5, tool_refused, initial_decision, by_risk, by_autonomy,
}

-- The tool of the case, if there is one, has a permission that is enabled.
abbrev pub ToolPermitted : Option String → Option GovernanceToolPermission → Type 0
ToolPermitted none permission = Unit
ToolPermitted (some tool_id) none = ⊥
ToolPermitted (some tool_id) (some permission) = permission.enabled ≡ true

-- What both an authorised action and one that waits for approval have passed.
pub record Permitted (controls : GlobalGovernanceControl) (settings : GovernanceSetting)
    (permission : Option GovernanceToolPermission) (c : Case) : Type 0 where
  pub switch_off : controls.kill_switch_enabled ≡ false
  pub not_prohibited : c.risk_class ≢ r5
  pub tool : ToolPermitted c.tool_id permission
  pub not_crossing : c.data_classification ≡ "restricted" → risk_rank c.risk_class < 2
  pub within_action : c.requested_spend_microusd ≤ settings.per_action_spend_limit_microusd
  pub within_day :
      c.authorized_spend_today_microusd + c.requested_spend_microusd
      ≤ settings.daily_spend_limit_microusd

abbrev pub is_refusal : ActionStatus → Bool
is_refusal denied = true
is_refusal blocked = true
is_refusal _ = false

-- A refusal under a test that is not returned was not reached.
passed :
    (test : Bool) (refusal : ActionStatus) (text : String) (rest : ActionStatus × String)
    → is_refusal refusal ≡ true
    → is_refusal (if test then (refusal, text) else rest).0 ≡ false
    → (test ≡ false) × (is_refusal rest.0 ≡ false)
passed true refusal text rest r h = ground arith
passed false refusal text rest r h = (refl, h)

not_r5 : (r : RiskClass) → is_r5 r ≡ false → r ≢ r5
not_r5 r h e = ground arith

is_r5_test : (r : RiskClass) → r ≢ r5 → is_r5 r ≡ false
is_r5_test r5 n = absurd (n refl)
is_r5_test _ n = refl

ToolPermitted-of_test :
    (tool_id : Option String) (permission : Option GovernanceToolPermission)
    → tool_refused tool_id permission ≡ false
    → ToolPermitted tool_id permission
ToolPermitted-of_test none permission h = tt
ToolPermitted-of_test (some tool_id) none h = ground arith
ToolPermitted-of_test (some tool_id) (some permission) h = ground arith

test-of_ToolPermitted :
    (tool_id : Option String) (permission : Option GovernanceToolPermission)
    → ToolPermitted tool_id permission
    → tool_refused tool_id permission ≡ false
test-of_ToolPermitted none permission h = refl
test-of_ToolPermitted (some tool_id) none h = absurd h
test-of_ToolPermitted (some tool_id) (some permission) h = ground arith

below_r2 :
    (mode : String) (rank : ℕ)
    → (mode == "restricted" && leb 2 rank) ≡ false
    → mode ≡ "restricted"
    → rank < 2
below_r2 mode rank h e = ground (arith, eq_iff mode "restricted")

ge_test : (rank : ℕ) → rank < 2 → leb 2 rank ≡ false
ge_test rank h = ground arith

not_crossing_test :
    (mode : String) (rank : ℕ)
    → (mode ≡ "restricted" → rank < 2)
    → (mode == "restricted" && leb 2 rank) ≡ false
not_crossing_test mode rank h = elim (Bool-cases (mode == "restricted")) [
  | inl t ↦ rw t (ge_test rank (h (eq-of_beq mode "restricted" t)))
  | inr f ↦ rw f
]

le_of_test : (a b : ℕ) → ltb a b ≡ false → b ≤ a
le_of_test a b h = ground arith

test_of_le : (a b : ℕ) → b ≤ a → ltb a b ≡ false
test_of_le a b h = ground arith

module _ (controls : GlobalGovernanceControl) (settings : GovernanceSetting)
    (permission : Option GovernanceToolPermission) (c : Case) where
  pub Permitted-of_passed :
      is_refusal (initial_decision controls settings permission c).0 ≡ false
      → Permitted controls settings permission c
  unfolding initial_decision
  Permitted-of_passed h =
      let (on, h1) = passed controls.kill_switch_enabled blocked _ _ refl h in
      let (five, h2) = passed (is_r5 c.risk_class) denied _ _ refl h1 in
      let (tool, h3) = passed (tool_refused c.tool_id permission) denied _ _ refl h2 in
      let (crossing, h4) = passed _ denied _ _ refl h3 in
      let (action, h5) = passed _ denied _ _ refl h4 in
      let (day, h6) = passed _ denied _ _ refl h5 in
      record {
        switch_off = on;
        not_prohibited = not_r5 c.risk_class five;
        tool = ToolPermitted-of_test c.tool_id permission tool;
        not_crossing = below_r2 c.data_classification (risk_rank c.risk_class) crossing;
        within_action = le_of_test _ _ action;
        within_day = le_of_test _ _ day;
      }

  -- Behind the prohibitions only the mode, the level, the risk and a forced approval count.
  pub decision-Permitted :
      Permitted controls settings permission c
      → initial_decision controls settings permission c ≡ (
          if c.execution_mode == "autonomous"
          then by_autonomy settings.autonomy_level c
          else by_risk c)
  unfolding initial_decision
  decision-Permitted h = rw (h.switch_off) (
      rw (is_r5_test c.risk_class h.not_prohibited) (
        rw (test-of_ToolPermitted c.tool_id permission h.tool) (
          rw (not_crossing_test c.data_classification (risk_rank c.risk_class) h.not_crossing)
            (rw (test_of_le _ _ h.within_action) (rw (test_of_le _ _ h.within_day))))))

by_risk_authorized :
    (c : Case)
    → ((by_risk c).0 ≡ authorized) ↔ ((risk_rank c.risk_class < 2) × (c.force_approval ≡ false))
unfolding by_risk
by_risk_authorized c = (λ h. (ground arith, ground arith), λ h. ground arith)

ne-of_test : (s t : String) → (s == t) ≡ false → s ≢ t
ne-of_test s t h e = ground (arith, eq_iff s t)

-- The choice behind the prohibitions.
mode_authorized :
    (mode : String) (level : AutonomyLevel) (c : Case)
    → ((if mode == "autonomous" then by_autonomy level c else by_risk c).0 ≡ authorized)
      ↔ (((by_risk c).0 ≡ authorized) × ((mode ≢ "autonomous") ⊎ (level ≡ autonomous_low_risk)))
unfolding by_autonomy
mode_authorized mode level c = elim (Bool-cases (mode == "autonomous")) [
  | inl t ↦ rw t (there level, λ h. back level (eq-of_beq mode "autonomous" t) h.0 h.1)
  | inr f ↦ rw f (λ h. (h, inl (ne-of_test mode "autonomous" f)), λ h. h.0)
]
  where
    there :
        (level : AutonomyLevel)
        → (by_autonomy level c).0 ≡ authorized
        → ((by_risk c).0 ≡ authorized) × ((mode ≢ "autonomous") ⊎ (level ≡ autonomous_low_risk))
    there autonomous_low_risk h = (h, inr refl)
    there _ h = ground arith

    back :
        (level : AutonomyLevel)
        → mode ≡ "autonomous"
        → (by_risk c).0 ≡ authorized
        → (mode ≢ "autonomous") ⊎ (level ≡ autonomous_low_risk)
        → (by_autonomy level c).0 ≡ authorized
    back autonomous_low_risk e h k = h
    back _ e h (inl n) = absurd (n e)
    back _ e h (inr l) = ground arith

-- An action is authorised without an owner's decision exactly when no prohibition applies, its risk
-- is below R2, no approval is forced, and the mode is not autonomous or the autonomy level is
-- AUTONOMOUS_LOW_RISK.
pub decision-authorized :
    (controls : GlobalGovernanceControl) (settings : GovernanceSetting)
    (permission : Option GovernanceToolPermission) (c : Case)
    → ((initial_decision controls settings permission c).0 ≡ authorized) ↔ (
        Permitted controls settings permission c
        × (risk_rank c.risk_class < 2)
        × (c.force_approval ≡ false)
        × ((c.execution_mode ≢ "autonomous") ⊎ (settings.autonomy_level ≡ autonomous_low_risk)))
decision-authorized controls settings permission c = (
  λ h.
      let w = Permitted-of_passed controls settings permission c (rw h) in
      let m =
        (mode_authorized c.execution_mode settings.autonomy_level c).0
          (rw (decision-Permitted controls settings permission c w) at h) in
      let r = (by_risk_authorized c).0 m.0 in (w, r.0, r.1, m.1),
  λ h. rw (decision-Permitted controls settings permission c h.0) (
      (mode_authorized c.execution_mode settings.autonomy_level c).1
        ((by_risk_authorized c).1 (h.1, h.2), h.3)),
)
