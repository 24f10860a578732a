-- ===== src/Governance/Service/Decide/Settled.antt =====
-- What a first decision writes, and how a decision on a closed approval ends.
use foundora_ai.Base.{
  suc, ◌≡◌, ◌≢◌, refl, sym, ap, arith, String, true, false, ◌&&◌, Option, none, some, List, [], ◌∷◌,
  ◌++◌, ok, err, find, put, find_sound, find-put_narrow, eq-of_beq, ok-injective, ◌==◌, nat_eq,
  string_eq, option_eq, if◌then◌else◌, Uuid, Datetime,
}
use foundora_ai.Governance.Model.{
  GovernanceAction, ApprovalRequest, GovernanceAuditEvent, Database, already_decided,
}
use foundora_ai.Governance.Service.{ActionRecord, add_audit}
use foundora_ai.Governance.Service.Decide.{
  Verdict, approve, reject, agrees, is_open, verdict_event, decided_approval, json_text,
  decided_action, write_verdict, is_event_of, record_of, settle_verdict, find_approval, find_action,
  decide_in_session,
}

pub found_approval :
    (approval_id business_id : Uuid) (ps : List ApprovalRequest) (p p' : ApprovalRequest)
    → find_approval approval_id business_id ps ≡ some p
    → p'.id ≡ p.id
    → p'.business_id ≡ p.business_id
    → find_approval approval_id business_id (put (λ x. x.id == p.id) p' ps) ≡ some p'
unfolding find_approval
found_approval approval_id business_id ps p p' found i b =
    let test = λ (x : ApprovalRequest). x.id == approval_id && x.business_id == business_id in
    let here : test p ≡ true = find_sound test ps p found in
    let same : p.id ≡ approval_id = eq-of_beq p.id approval_id (ground arith) in
    find-put_narrow test (λ x. x.id == p.id) p' ps p (λ x t. rw same (ground arith))
      (rw (i, b) here) found

pub found_action :
    (action_id business_id : Uuid) (rows : List GovernanceAction) (a a' : GovernanceAction)
    → find_action action_id business_id rows ≡ some a
    → a'.id ≡ a.id
    → a'.business_id ≡ a.business_id
    → find_action action_id business_id (put (λ x. x.id == a.id) a' rows) ≡ some a'
unfolding find_action
found_action action_id business_id rows a a' found i b =
    let test = λ (x : GovernanceAction). x.id == action_id && x.business_id == business_id in
    let here : test a ≡ true = find_sound test rows a found in
    let same : a.id ≡ action_id = eq-of_beq a.id action_id (ground arith) in
    find-put_narrow test (λ x. x.id == a.id) a' rows a (λ x t. rw same (ground arith))
      (rw (i, b) here) found

pub decide_found :
    (business_id approval_id : Uuid) (v : Verdict) (reason : Option String) (key : String)
    (owner_id : Uuid) (s : Database) (p : ApprovalRequest) (a : GovernanceAction)
    → find_approval approval_id business_id s.approvals ≡ some p
    → find_action p.action_id business_id s.actions ≡ some a
    → decide_in_session business_id approval_id v reason key owner_id s
      ≡ settle_verdict p a v reason key owner_id s
unfolding decide_in_session
decide_found business_id approval_id v reason key owner_id s p a fp fa = ground arith

pub settle_known :
    (p : ApprovalRequest) (a : GovernanceAction) (v : Verdict) (reason : Option String)
    (key : String) (owner_id : Uuid) (s : Database)
    → find (is_event_of p.id key) s.audits ≢ none
    → settle_verdict p a v reason key owner_id s ≡ ok (record_of p a, s)
unfolding settle_verdict
settle_known p a v reason key owner_id s known = ground arith

pub settle_closed :
    (p : ApprovalRequest) (a : GovernanceAction) (v : Verdict) (reason : Option String)
    (key : String) (owner_id : Uuid) (s : Database)
    → find (is_event_of p.id key) s.audits ≡ none
    → is_open p.status a.status ≡ false
    → settle_verdict p a v reason key owner_id s
      ≡ (if agrees v p.status a.status then ok (record_of p a, s) else err already_decided)
unfolding settle_verdict
settle_closed p a v reason key owner_id s unknown closed = ground arith

-- The state that the first decision leaves.
pub record Decided (p : ApprovalRequest) (a : GovernanceAction) (v : Verdict)
    (reason : Option String) (key : String) (owner_id : Uuid) (s : Database) (x : ActionRecord)
    (s' : Database) : Type 0 where
  pub at : Datetime
  pub result : x ≡ record_of (decided_approval p v reason owner_id at) (decided_action a v at)
  pub approvals :
      s'.approvals ≡ put (λ x. x.id == p.id) (decided_approval p v reason owner_id at) s.approvals
  pub actions : s'.actions ≡ put (λ x. x.id == a.id) (decided_action a v at) s.actions
  pub event : GovernanceAuditEvent
  pub event_approval : event.approval_request_id ≡ some p.id
  pub event_key : event.idempotency_key ≡ some key
  pub audits : s'.audits ≡ s.audits ++ event ∷ []

pub settle_open :
    (p : ApprovalRequest) (a : GovernanceAction) (v : Verdict) (reason : Option String)
    (key : String) (owner_id : Uuid) (s : Database)
    → find (is_event_of p.id key) s.audits ≡ none
    → is_open p.status a.status ≡ true
    → settle_verdict p a v reason key owner_id s ≡ write_verdict p a v reason key owner_id s
unfolding settle_verdict
settle_open p a v reason key owner_id s unknown opened = ground arith

pub Decided-of_write :
    (p : ApprovalRequest) (a : GovernanceAction) (v : Verdict) (reason : Option String)
    (key : String) (owner_id : Uuid) (s : Database) (x : ActionRecord) (s' : Database)
    → write_verdict p a v reason key owner_id s ≡ ok (x, s')
    → Decided p a v reason key owner_id s x s'
unfolding write_verdict add_audit decided_action
Decided-of_write p a v reason key owner_id s x s' h =
    let (result, state) = ok-injective (write_verdict p a v reason key owner_id s) refl h in
    record {
      at = s.clock s.ticks;
      result = sym result;
      approvals = ap (λ (t : Database). t.approvals) (sym state);
      actions = ap (λ (t : Database). t.actions) (sym state);
      event = record {
        id = s.outbox.next_uuid;
        business_id = some a.business_id;
        action_id = some a.id;
        approval_request_id = some p.id;
        event_type = verdict_event v;
        actor_owner_id = some owner_id;
        idempotency_key = some key;
        details = ("reason", json_text reason) ∷ [];
        created_at = s.clock (suc s.ticks);
      };
      event_approval = refl;
      event_key = refl;
      audits = ap (λ (t : Database). t.audits) (sym state);
    }

pub is_open_decided :
    (p : ApprovalRequest) (a : GovernanceAction) (v : Verdict) (reason : Option String)
    (owner_id : Uuid) (at : Datetime)
    → is_open (decided_approval p v reason owner_id at).status (decided_action a v at).status
      ≡ false
unfolding decided_approval decided_action
is_open_decided p a approve reason owner_id at = refl
is_open_decided p a reject reason owner_id at = refl

pub agrees_decided :
    (p : ApprovalRequest) (a : GovernanceAction) (v v' : Verdict) (reason : Option String)
    (owner_id : Uuid) (at : Datetime)
    → (v' ≡ v
        → agrees v' (decided_approval p v reason owner_id at).status (decided_action a v at).status
          ≡ true)
      × (v' ≢ v
          → agrees v'
              (decided_approval p v reason owner_id at).status
              (decided_action a v at).status
            ≡ false)
unfolding decided_approval decided_action
agrees_decided p a approve approve reason owner_id at = (λ _. refl, λ n. absurd (n refl))
agrees_decided p a approve reject reason owner_id at = (λ e. absurd (ground arith), λ _. refl)
agrees_decided p a reject approve reason owner_id at = (λ e. absurd (ground arith), λ _. refl)
agrees_decided p a reject reject reason owner_id at = (λ _. refl, λ n. absurd (n refl))
