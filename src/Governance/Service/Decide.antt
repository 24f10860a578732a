-- ===== src/Governance/Service/Decide.antt =====
-- `decide` and `decide_in_session` of governance/service.py.
pub mod Settled
pub mod Final
use foundora_ai.Base.{
  ℕ, String, Bool, true, false, ◌||◌, ◌&&◌, not, Option, none, some, List, [], ◌∷◌, ok, err, Tx,
  pure, raise, raise_if, or_raise, ◌>>=◌, ◌>>◌, gets, modify, continue, ◌==◌, nat_eq, string_eq,
  option_eq, if◌then◌else◌, find, put, Uuid, Datetime, null, text, Value,
}
use foundora_ai.Business.{AuthContext}
use foundora_ai.Governance.Model.{
  GovernanceAction, ApprovalRequest, GovernanceAuditEvent, ActionStatus, approval_required,
  approved, rejected, ApprovalStatus, approval_pending, approval_approved, approval_rejected,
  not_found, already_decided,
}
use foundora_ai.Governance.Service.{
  Gov, ActionRecord, now, Audit, add_audit, selected_business, write_action,
}

-- `Decision`
pub data Verdict : Type 0 where
  approve reject : Verdict

abbrev pub approval_status : Verdict → ApprovalStatus
approval_status approve = approval_approved
approval_status reject = approval_rejected

abbrev pub action_status : Verdict → ActionStatus
action_status approve = approved
action_status reject = rejected

-- `approval.status == decision and action.status == decision`
abbrev pub agrees : Verdict → ApprovalStatus → ActionStatus → Bool
agrees approve approval_approved approved = true
agrees reject approval_rejected rejected = true
agrees _ _ _ = false

-- `approval.status != "pending" or action.status != "approval_required"`, negated.
abbrev pub is_open : ApprovalStatus → ActionStatus → Bool
is_open approval_pending approval_required = true
is_open _ _ = false

abbrev pub verdict_rationale : Verdict → String
verdict_rationale approve = "Owner explicitly approved the action"
verdict_rationale reject = "Owner explicitly rejected the action"

abbrev pub verdict_event : Verdict → String
verdict_event approve = "approval_approved"
verdict_event reject = "approval_rejected"

unfoldable pub decided_approval :
    ApprovalRequest → Verdict → Option String → Uuid → Datetime → ApprovalRequest
decided_approval p v reason owner_id at = record p {
  status = approval_status v;
  decision_reason = reason;
  decided_by_owner_id = some owner_id;
  decided_at = some at;
}

unfoldable pub decided_action : GovernanceAction → Verdict → Datetime → GovernanceAction
decided_action a v at = record a {
  status = action_status v;
  rationale = verdict_rationale v;
  updated_at = at;
}

abbrev json_text : Option String → Value
json_text none = null
json_text (some s) = text s

-- The writes of the first decision. The action's business is the one that it was looked up by.
unfoldable pub write_verdict :
    ApprovalRequest → GovernanceAction → Verdict → Option String → String → Uuid → Gov ActionRecord
write_verdict p a v reason key owner_id = do
  at ← now
  modify (λ s. record s {
    approvals = put (λ x. x.id == p.id) (decided_approval p v reason owner_id at) s.approvals;
  })
  write_action (decided_action a v at)
  add_audit (verdict_event v) (record {
    business_id = some a.business_id;
    action_id = some a.id;
    approval_request_id = some p.id;
    actor_owner_id = some owner_id;
    idempotency_key = some key;
    details = ("reason", json_text reason) ∷ [];
  })
  pure (record {
    action = decided_action a v at;
    approval = some (decided_approval p v reason owner_id at);
  })

abbrev pub is_event_of : Uuid → String → GovernanceAuditEvent → Bool
is_event_of approval_id key e =
    e.approval_request_id == some approval_id && e.idempotency_key == some key

abbrev pub record_of : ApprovalRequest → GovernanceAction → ActionRecord
record_of p a = record { action = a; approval = some p }

-- The answer once both rows are found.
unfoldable pub settle_verdict :
    ApprovalRequest → GovernanceAction → Verdict → Option String → String → Uuid → Gov ActionRecord
settle_verdict p a v reason key owner_id s = elim (find (is_event_of p.id key) s.audits) [
  | some _ ↦ pure (record_of p a) s
  | none ↦
      if is_open p.status a.status
      then write_verdict p a v reason key owner_id s
      else if agrees v p.status a.status
      then pure (record_of p a) s
      else raise already_decided s
]

unfoldable pub find_approval : Uuid → Uuid → List ApprovalRequest → Option ApprovalRequest
find_approval approval_id business_id =
    find (λ p. p.id == approval_id && p.business_id == business_id)

unfoldable pub find_action : Uuid → Uuid → List GovernanceAction → Option GovernanceAction
find_action action_id business_id = find (λ a. a.id == action_id && a.business_id == business_id)

unfoldable pub decide_in_session :
    Uuid → Uuid → Verdict → Option String → String → Uuid → Gov ActionRecord
decide_in_session business_id approval_id v reason key owner_id = do
  s ← gets (λ s. s)
  p ← or_raise not_found (find_approval approval_id business_id s.approvals)
  a ← or_raise not_found (find_action p.action_id business_id s.actions)
  settle_verdict p a v reason key owner_id

pub decide : AuthContext → Uuid → Verdict → Option String → String → Gov ActionRecord
decide context approval_id v reason key = do
  business ← selected_business context
  decide_in_session business.id approval_id v reason key context.owner_id
