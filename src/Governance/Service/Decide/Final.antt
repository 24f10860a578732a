-- ===== src/Governance/Service/Decide/Final.antt =====
-- A decision on an approval is final.
use foundora_ai.Base.{
  ◌≡◌, ◌≢◌, ◌⊎◌, refl, sym, ap, ◌∙◌, arith, String, true, false, Option, none, some, ok, err,
  Option-cases, inl, inr, find, find-append_left, find-append_last, find-append_none, eq_self,
  test-of_ne, nat_eq, string_eq, option_eq, Uuid,
}
use foundora_ai.Governance.Model.{GovernanceAction, ApprovalRequest, Database, already_decided}
use foundora_ai.Governance.Service.{ActionRecord}
use foundora_ai.Governance.Service.Decide.{
  Verdict, action_status, is_open, decided_approval, decided_action, is_event_of, settle_verdict,
  find_approval, find_action, decide_in_session,
}
use foundora_ai.Governance.Service.Decide.Settled.{
  found_approval, found_action, decide_found, settle_known, settle_closed, Decided, settle_open,
  Decided-of_write, is_open_decided, agrees_decided,
}

module _ (business_id approval_id : Uuid) (v : Verdict) (reason : Option String) (key : String)
    (owner_id : Uuid) (s : Database) (p : ApprovalRequest) (a : GovernanceAction) (x : ActionRecord)
    (s' : Database) (fp : find_approval approval_id business_id s.approvals ≡ some p)
    (fa : find_action p.action_id business_id s.actions ≡ some a)
    (unknown : find (is_event_of p.id key) s.audits ≡ none)
    (opened : is_open p.status a.status ≡ true)
    (h : decide_in_session business_id approval_id v reason key owner_id s ≡ ok (x, s')) where
  decided : Decided p a v reason key owner_id s x s'
  decided = Decided-of_write p a v reason key owner_id s x s' (
      sym (settle_open p a v reason key owner_id s unknown opened)
      ∙ sym (decide_found business_id approval_id v reason key owner_id s p a fp fa)
      ∙ h)

  again :
      (v' : Verdict) (reason' : Option String) (key' : String) (owner' : Uuid)
      → decide_in_session business_id approval_id v' reason' key' owner' s'
        ≡ settle_verdict
            (decided_approval p v reason owner_id decided.at)
            (decided_action a v decided.at)
            v'
            reason'
            key'
            owner'
            s'
  unfolding decided_approval decided_action
  again v' reason' key' owner' =
      decide_found business_id approval_id v' reason' key' owner' s' _ _
        (rw decided.approvals (found_approval approval_id business_id s.approvals p _ fp refl refl))
        (rw decided.actions (found_action p.action_id business_id s.actions a _ fa refl refl))

  answered :
      (v' : Verdict) (reason' : Option String) (key' : String) (owner' : Uuid)
      → find (is_event_of p.id key') s'.audits ≢ none
      → decide_in_session business_id approval_id v' reason' key' owner' s' ≡ ok (x, s')
  unfolding decided_approval
  answered v' reason' key' owner' known =
      again v' reason' key' owner'
      ∙ settle_known _ _ v' reason' key' owner' s' known
      ∙ rw decided.result

  judged :
      (v' : Verdict) (reason' : Option String) (key' : String) (owner' : Uuid)
      → find (is_event_of p.id key') s'.audits ≡ none
      → (v' ≡ v → decide_in_session business_id approval_id v' reason' key' owner' s' ≡ ok (x, s'))
        × (v' ≢ v
            → decide_in_session business_id approval_id v' reason' key' owner' s'
              ≡ err already_decided)
  unfolding decided_approval
  judged v' reason' key' owner' unknown' =
      let closed =
        settle_closed (decided_approval p v reason owner_id decided.at)
          (decided_action a v decided.at) v' reason' key' owner' s' unknown'
          (is_open_decided p a v reason owner_id decided.at) in
      let (yea, nay) = agrees_decided p a v v' reason owner_id decided.at in
      (
        (λ e. again v' reason' key' owner' ∙ closed ∙ rw (yea e) (rw decided.result)),
        (λ n. again v' reason' key' owner' ∙ closed ∙ rw (nay n)),
      )

  own_event : is_event_of p.id key decided.event ≡ true
  own_event = rw (decided.event_approval, decided.event_key) (rw (eq_self p.id) (rw (eq_self key)))

  other_event : (key' : String) → key' ≢ key → is_event_of p.id key' decided.event ≡ false
  other_event key' n =
      rw (decided.event_approval, decided.event_key)
        (rw (eq_self p.id) (rw (test-of_ne key key' (λ e. n (sym e)))))

decide_outcomes :
    (business_id approval_id : Uuid) (v : Verdict) (reason : Option String) (key : String)
    (owner_id : Uuid) (s : Database) (p : ApprovalRequest) (a : GovernanceAction) (x : ActionRecord)
    (s' : Database)
    → find_approval approval_id business_id s.approvals ≡ some p
    → find_action p.action_id business_id s.actions ≡ some a
    → find (is_event_of p.id key) s.audits ≡ none
    → is_open p.status a.status ≡ true
    → decide_in_session business_id approval_id v reason key owner_id s ≡ ok (x, s')
    → (v' : Verdict) (reason' : Option String) (key' : String) (owner' : Uuid)
    → (x.action.status ≡ action_status v)
      × ((key' ≡ key) ⊎ (find (is_event_of p.id key') s.audits ≢ none) ⊎ (v' ≡ v)
          → decide_in_session business_id approval_id v' reason' key' owner' s' ≡ ok (x, s'))
      × (key' ≢ key
          → find (is_event_of p.id key') s.audits ≡ none
          → v' ≢ v
          → decide_in_session business_id approval_id v' reason' key' owner' s'
            ≡ err already_decided)
unfolding decided_action
decide_outcomes b i v reason key o s p a x s' fp fa unknown opened h v' reason' key' o' = (
  ap (λ (y : ActionRecord). y.action.status) d.result,
  same,
  λ n u other.
      (judged b i v reason key o s p a x s' fp fa unknown opened h v' reason' key' o' (
          rw d.audits (
            find-append_none (is_event_of p.id key') s.audits _ u
            ∙ rw (other_event b i v reason key o s p a x s' fp fa unknown opened h key' n)))).1
        other,
)
  where
    d : Decided p a v reason key o s x s'
    d = decided b i v reason key o s p a x s' fp fa unknown opened h

    known :
        find (is_event_of p.id key') s'.audits ≢ none
        → decide_in_session b i v' reason' key' o' s' ≡ ok (x, s')
    known = answered b i v reason key o s p a x s' fp fa unknown opened h v' reason' key' o'

    same :
        (key' ≡ key) ⊎ (find (is_event_of p.id key') s.audits ≢ none) ⊎ (v' ≡ v)
        → decide_in_session b i v' reason' key' o' s' ≡ ok (x, s')
    same (inl e) = known (
        rw (d.audits, e)
          (find-append_last (is_event_of p.id key) s.audits d.event
            (own_event b i v reason key o s p a x s' fp fa unknown opened h)))
    same (inr (inl k)) = known (rw d.audits (find-append_left (is_event_of p.id key') s.audits _ k))
    same (inr (inr e)) = elim (Option-cases (find (is_event_of p.id key') s'.audits)) [
      | inl none_yet ↦
          (judged b i v reason key o s p a x s' fp fa unknown opened h v' reason' key' o'
              none_yet).0
            e
      | inr (y, found) ↦ known (λ n. absurd (ground arith))
    ]

-- After the first decision on an open approval, a decision for the other verdict, under a key that
-- neither the first decision nor an earlier event of the approval has, is refused.
pub decide_reversed :
    (business_id approval_id : Uuid) (v : Verdict) (reason : Option String) (key : String)
    (owner_id : Uuid) (s : Database) (p : ApprovalRequest) (a : GovernanceAction) (x : ActionRecord)
    (s' : Database)
    → find_approval approval_id business_id s.approvals ≡ some p
    → find_action p.action_id business_id s.actions ≡ some a
    → find (is_event_of p.id key) s.audits ≡ none
    → is_open p.status a.status ≡ true
    → decide_in_session business_id approval_id v reason key owner_id s ≡ ok (x, s')
    → (v' : Verdict) (reason' : Option String) (key' : String) (owner' : Uuid) → key' ≢ key
    → find (is_event_of p.id key') s.audits ≡ none
    → v' ≢ v
    → decide_in_session business_id approval_id v' reason' key' owner' s' ≡ err already_decided
decide_reversed b i v reason key o s p a x s' fp fa unknown opened h v' reason' key' o' =
    (decide_outcomes b i v reason key o s p a x s' fp fa unknown opened h v' reason' key' o').2
