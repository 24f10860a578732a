-- ===== src/Governance/Service/Controls/Switch.antt =====
-- What the kill switch does, and which changes of the controls are refused.
use foundora_ai.Base.{
  ℕ, ◌+◌, ◌≡◌, ◌≢◌, sym, ap, ◌∙◌, arith, String, Bool, true, Option, none, some, List, ok, err,
  Option-cases, inl, inr, find, External,
}
use mathlib.Core.Option.{some-injective}
use foundora_ai.Events.Contracts.{EventConsumer}
use foundora_ai.Business.{AuthContext, resolve_selected_business}
use foundora_ai.Governance.Model.{
  GlobalGovernanceControl, GovernanceAction, Database, blocked, controls_changed, GovernanceSetting,
  GovernanceToolPermission,
}
use foundora_ai.Governance.Decision.{Case, initial_decision}
use foundora_ai.Governance.Service.{ActionRecord, add_audit, selected_business}
use foundora_ai.Governance.Service.Evaluate.{
  ActionRequest, is_same_request, new_action, evaluate_in_session,
}
use foundora_ai.Governance.Service.Evaluate.Recorded.{Evaluated-of_ok}
use foundora_ai.Governance.Service.Controls.{switched, set_kill_switch}

-- What a change of the switch leaves.
record Switched (enabled : Bool) (revision : ℕ) (s s' : Database) (c : GlobalGovernanceControl)
    : Type 0 where
  enabled_is : c.kill_switch_enabled ≡ enabled
  revision_is : c.revision ≡ revision + 1
  written : s'.controls ≡ some c
  same_directory : s'.directory ≡ s.directory

Switched-of_ok :
    (context : AuthContext) (enabled : Bool) (reason : Option String) (revision : ℕ)
    (s s' : Database) (c : GlobalGovernanceControl)
    → set_kill_switch context enabled reason revision s ≡ ok (c, s')
    → Switched enabled revision s s' c
unfolding set_kill_switch switched add_audit selected_business
Switched-of_ok context enabled reason revision s s' c h = ground arith

decision_blocked :
    (controls : GlobalGovernanceControl) (setting : GovernanceSetting)
    (permission : Option GovernanceToolPermission) (c : Case)
    → controls.kill_switch_enabled ≡ true
    → (initial_decision controls setting permission c).0 ≡ blocked
unfolding initial_decision
decision_blocked controls setting permission c h = ground arith

-- Once the kill switch is engaged, an action that is new under its idempotency key comes out
-- blocked, whatever is asked for.
pub kill_switch_blocks :
    (context : AuthContext) (reason : Option String) (revision : ℕ) (s s' s'' : Database)
    (c : GlobalGovernanceControl) (ext : External) (consumers : List EventConsumer)
    (r : ActionRequest) (x : ActionRecord)
    → set_kill_switch context true reason revision s ≡ ok (c, s')
    → find (is_same_request r) s'.actions ≡ none
    → evaluate_in_session ext consumers r s' ≡ ok (x, s'')
    → x.action.status ≡ blocked
unfolding new_action
kill_switch_blocks context reason revision s s' s'' c ext consumers r x h fresh e =
    let ev = Evaluated-of_ok ext consumers r s' s'' x e fresh in
    let w = Switched-of_ok context true reason revision s s' c h in
    let same : ev.d.controls ≡ c = some-injective _ _ (sym ev.rows.controls ∙ w.written) in
    ap (λ (a : GovernanceAction). a.status) ev.action_is
    ∙ decision_blocked ev.d.controls ev.d.setting _ _
        (ap (λ (k : GlobalGovernanceControl). k.kill_switch_enabled) same ∙ w.enabled_is)

stale_refused :
    (context : AuthContext) (enabled : Bool) (reason : Option String) (revision : ℕ) (s : Database)
    (c : GlobalGovernanceControl)
    → resolve_selected_business s.directory context ≢ none
    → s.controls ≡ some c
    → c.revision ≡ revision + 1
    → set_kill_switch context enabled reason revision s ≡ err controls_changed
unfolding set_kill_switch selected_business
stale_refused context enabled reason revision s c known written later =
    elim (Option-cases (resolve_selected_business s.directory context)) [
      | inl missing ↦ absurd (known missing)
      | inr (b, found) ↦ ground arith
    ]

-- A change of the switch that expects the revision that an earlier change expected is refused, so
-- of two owners' sessions that read the same controls one alone changes them.
pub kill_switch_once :
    (context context' : AuthContext) (enabled enabled' : Bool) (reason reason' : Option String)
    (revision : ℕ) (s s' : Database) (c : GlobalGovernanceControl)
    → set_kill_switch context enabled reason revision s ≡ ok (c, s')
    → resolve_selected_business s.directory context' ≢ none
    → set_kill_switch context' enabled' reason' revision s' ≡ err controls_changed
kill_switch_once context context' enabled enabled' reason reason' revision s s' c h known =
    let w = Switched-of_ok context enabled reason revision s s' c h in
    stale_refused context' enabled' reason' revision s' c (rw w.same_directory known) w.written
      w.revision_is
