-- ===== src/Governance/Service/Evaluate/Recorded.antt =====
-- What a run of `evaluate_in_session` under a new key records.
use foundora_ai.Base.{
  ℕ, ◌≡◌, refl, arith, String, none, List, [], ◌∷◌, ◌++◌, ok, err, continue, Result, Result-cases,
  inl, inr, find, nat_eq, string_eq, Uuid, Datetime, External,
}
use foundora_ai.Events.Contracts.{EventConsumer}
use foundora_ai.Governance.Registry.{RiskClass, classify_action}
use foundora_ai.Governance.Model.{
  GovernanceAction, PolicyVersion, GovernanceError, Database, ActionStatus, authorized,
}
use foundora_ai.Governance.Decision.{initial_decision}
use foundora_ai.Governance.Service.{
  ActionRecord, Defaults, defaults, policy, add_audit, authorized_spend_today,
}
use foundora_ai.Governance.Service.Frames.{policy_keeps, DefaultRows, DefaultRows-of_ok}
use foundora_ai.Governance.Service.Evaluate.{
  ActionRequest, is_same_request, classified, new_action, follow_up, finish_action, record_action,
  decide_action, evaluate_new, evaluate_key, evaluate_in_session, permission_for, case_of,
}

module _ (ext : External) (consumers : List EventConsumer) (r : ActionRequest) where
  pub finish_action-action :
      (a : GovernanceAction) (at : Datetime) (status : ActionStatus) (s s' : Database)
      (x : ActionRecord)
      → finish_action ext consumers r a at status s ≡ ok (x, s')
      → x.action ≡ a
  unfolding finish_action
  finish_action-action a at status s s' x h =
      elim (Result-cases (follow_up ext consumers r a at status s)) [
        | inl ((p, s1), e) ↦ ground arith
        | inr (bad, e) ↦ absurd (ground arith)
      ]

  pub record_action-action :
      (risk : RiskClass) (v : PolicyVersion) (at : Datetime) (decision : ActionStatus × String)
      (s s' : Database) (x : ActionRecord)
      → record_action ext consumers r risk v at decision s ≡ ok (x, s')
      → x.action ≡ new_action r v.id risk decision at s.outbox.next_uuid
  unfolding record_action add_audit
  record_action-action risk v at decision s s' x h = finish_action-action _ _ _ _ _ _ h

  -- An authorised action is followed by an audit event alone.
  pub record Stored (s s' : Database) (rows : List GovernanceAction) : Type 0 where
    pub same_permissions : s'.permissions ≡ s.permissions
    pub same_settings : s'.settings ≡ s.settings
    pub actions : s'.actions ≡ rows

  pub retimed :
      {s s' : Database} {n : ℕ} {rows : List GovernanceAction}
      → Stored (record s { ticks = n }) s' rows
      → Stored s s' rows
  retimed h = record {
    same_permissions = h.same_permissions;
    same_settings = h.same_settings;
    actions = h.actions;
  }

  pub finish_action-Stored :
      (a : GovernanceAction) (at : Datetime) (status : ActionStatus) (s s' : Database)
      (x : ActionRecord)
      → finish_action ext consumers r a at status s ≡ ok (x, s')
      → status ≡ authorized
      → Stored s s' s.actions
  unfolding finish_action follow_up add_audit
  finish_action-Stored a at authorized s s' x h e = record {
    same_permissions = ground arith;
    same_settings = ground arith;
    actions = ground arith;
  }
  finish_action-Stored a at _ s s' x h e = absurd (ground arith)

  pub record_action-Stored :
      (risk : RiskClass) (v : PolicyVersion) (at : Datetime) (decision : ActionStatus × String)
      (s s' : Database) (x : ActionRecord)
      → record_action ext consumers r risk v at decision s ≡ ok (x, s')
      → decision.0 ≡ authorized
      → Stored s s' (s.actions ++ new_action r v.id risk decision at s.outbox.next_uuid ∷ [])
  unfolding record_action add_audit
  record_action-Stored risk v at decision s s' x h e =
      let f = finish_action-Stored _ _ _ _ _ _ h e in
      record {
        same_permissions = f.same_permissions;
        same_settings = f.same_settings;
        actions = f.actions;
      }

  -- The facts of a run that found no action under the key.
  pub record Evaluated (s s' : Database) (x : ActionRecord) : Type 0 where
    pub risk : RiskClass
    pub class_is :
        classify_action r.action_type r.tool_id r.requested_spend_microusd r.minimum_risk_class
        ≡ ok risk
    pub d : Defaults
    pub middle : Database
    pub rows : DefaultRows r.business_id s d middle
    pub at : Datetime
    pub version : Uuid
    pub id : Uuid
    pub action_is :
        x.action
        ≡ new_action r version risk
            (initial_decision d.controls d.setting
              (permission_for r.tool_id d.permissions)
              (case_of r risk (authorized_spend_today r.business_id at s.actions)))
            at
            id
    pub stored :
        (initial_decision d.controls d.setting
            (permission_for r.tool_id d.permissions)
            (case_of r risk (authorized_spend_today r.business_id at s.actions))).0
          ≡ authorized
        → Stored middle s' (s.actions ++ x.action ∷ [])

  pub Evaluated-of_new :
      (risk : RiskClass) (v : PolicyVersion) (d : Defaults) (s s1 s' : Database) (x : ActionRecord)
      → classify_action r.action_type r.tool_id r.requested_spend_microusd r.minimum_risk_class
        ≡ ok risk
      → DefaultRows r.business_id s d s1
      → evaluate_new ext consumers r risk v d s1 ≡ ok (x, s')
      → Evaluated s s' x
  unfolding evaluate_new decide_action
  Evaluated-of_new risk v d s s1 s' x c rows h = record {
    risk = risk;
    class_is = c;
    d = d;
    middle = s1;
    rows = rows;
    at = s1.clock s1.ticks;
    version = v.id;
    id = s1.outbox.next_uuid;
    action_is = rw (← rows.same_actions) is;
    stored = rw (← rows.same_actions, is) (λ e. retimed (record_action-Stored _ _ _ _ _ _ _ h e));
  }
    where
      is :
          x.action
          ≡ new_action r v.id risk
              (initial_decision d.controls d.setting (permission_for r.tool_id d.permissions) (
                case_of r risk
                  (authorized_spend_today r.business_id (s1.clock s1.ticks) s1.actions)))
              (s1.clock s1.ticks)
              s1.outbox.next_uuid
      is = record_action-action _ _ _ _ _ _ _ h

  pub new-of_key :
      (risk : RiskClass) (v : PolicyVersion) (d : Defaults) (s : Database)
      → find (is_same_request r) s.actions ≡ none
      → evaluate_key ext consumers r risk v d s ≡ evaluate_new ext consumers r risk v d s
  unfolding evaluate_key
  new-of_key risk v d s missing = rw (missing, evaluate_key)

  pub after_defaults :
      (risk : RiskClass) (v : PolicyVersion) (s s' : Database) (x : ActionRecord)
      → classify_action r.action_type r.tool_id r.requested_spend_microusd r.minimum_risk_class
        ≡ ok risk
      → find (is_same_request r) s.actions ≡ none
      → (m : Result GovernanceError (Defaults × Database))
      → defaults r.business_id r.created_by_owner_id s ≡ m
      → continue m (evaluate_key ext consumers r risk v) ≡ ok (x, s')
      → Evaluated s s' x
  after_defaults risk v s s' x c fresh (err e) m h = absurd (cc)
  after_defaults risk v s s' x c fresh (ok (d, s1)) m h =
      let rows = DefaultRows-of_ok r.business_id r.created_by_owner_id s s1 d m in
      let missing : find (is_same_request r) s1.actions ≡ none = rw rows.same_actions fresh in
      Evaluated-of_new risk v d s s1 s' x c rows (rw (new-of_key risk v d s1 missing) at h)

  pub Evaluated-of_ok :
      (s s' : Database) (x : ActionRecord)
      → evaluate_in_session ext consumers r s ≡ ok (x, s')
      → find (is_same_request r) s.actions ≡ none
      → Evaluated s s' x
  unfolding evaluate_in_session classified
  Evaluated-of_ok s s' x h fresh =
      elim (Result-cases
        (classify_action r.action_type r.tool_id r.requested_spend_microusd r.minimum_risk_class)) [
          | inr (e, c) ↦ absurd (ground arith)
          | inl (risk, c) ↦ elim (Result-cases (policy s)) [
            | inr (e, p) ↦ absurd (ground arith)
            | inl ((rows, s1), p) ↦
                let kept = policy_keeps s s1 rows p in
                after_defaults risk rows.1 s s' x c fresh
                  (defaults r.business_id r.created_by_owner_id s) refl
                  (rw (← kept) (rw (c, classified, p) at h))
          ]
        ]
