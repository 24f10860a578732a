-- ===== src/Memory/Decided.antt =====
-- A decision on a proposal is final (memory/service.py).
use foundora_ai.Base.{
  ℕ, ◌+◌, ◌<◌, ◌≡◌, ◌⊎◌, inl, inr, refl, sym, ap, subst, ◌∙◌, arith, String, Bool, true, false,
  ◌&&◌, ◌==◌, nat_eq, string_eq, List, some, ok, err, put, find, find-put_scoped, All, All-find,
  Distinct, Uuid, Bool-cases, row-IsClosed, closed-put, keys_of_found,
}
use foundora_ai.Business.{AuthContext, Business, resolve_selected_business}
use foundora_ai.Events.Contracts.{EventConsumer}
use foundora_ai.Memory.Model.{MemoryStore, MemoryProposal, rejected, proposal_changed}
use foundora_ai.Memory.Text.{Libraries, check_reason}
use foundora_ai.Memory.Session.{selected_business}
use foundora_ai.Memory.Decide.{settle_proposal, find_proposal, decide_proposal, is_pending}
use foundora_ai.Memory.Runs.{Decision-of_decide}
use foundora_ai.Memory.Settled.{Settled, Settled-of_settle}
use foundora_ai.Memory.Histories.{Reach, reached}
use foundora_ai.Memory.Lasting.Proposals.{IsDecided, IsDecided-IsKept}

-- A decision leaves the proposal decided, where ids identify the proposals.
IsDecided-of_Settled :
    (id business_id : Uuid) (p : MemoryProposal) (accept : Bool) (s s' : MemoryStore)
    (x : MemoryProposal)
    → Distinct (λ (y : MemoryProposal). y.id) s.proposals
    → All (λ (y : MemoryProposal). y.id < s.outbox.next_uuid) s.proposals
    → find (λ y. y.id == id && y.business_id == business_id) s.proposals ≡ some p
    → Settled p accept s s' x
    → IsDecided id business_id s'
IsDecided-of_Settled id business_id p accept s s' x distinct old found w =
    let (same, owner) =
      keys_of_found (λ (y : MemoryProposal). y.id) (λ y. y.business_id) id business_id s.proposals p
        found in
    let before =
      All-find (λ (y : MemoryProposal). y.id < s.outbox.next_uuid) _ s.proposals p old found in
    let le = w.later in
    record {
      row = x;
      found =
          ap (find (λ y. y.id == id && y.business_id == business_id)) w.proposals
          ∙ find-put_scoped (λ (y : MemoryProposal). y.id) (λ (y : MemoryProposal). y.business_id)
              id business_id x s.proposals p w.same_id w.same_business found;
      of_key = w.same_id ∙ same;
      rows =
          subst (All (λ (y : MemoryProposal). y.id ≡ id → is_pending y.status ≡ false))
            (sym
              (w.proposals ∙ ap (λ k. put (λ (y : MemoryProposal). y.id == k) x s.proposals) same))
            (closed-put (λ (y : MemoryProposal). y.id) (λ y. is_pending y.status) id x s.proposals
              w.decided distinct);
      old = omega (arith, same);
    }

refused :
    (lib : Libraries) (consumers : List EventConsumer) (context : AuthContext) (id : Uuid)
    (later : ℕ) (again : Bool) (reason normalized : String) (t : MemoryStore) (b : Business)
    → IsDecided id b.id t
    → resolve_selected_business t.directory context ≡ some b
    → check_reason lib "Decision reason" reason ≡ ok normalized
    → decide_proposal lib consumers context id later again reason t ≡ err proposal_changed
unfolding decide_proposal find_proposal selected_business settle_proposal
refused lib consumers context id later again reason normalized t b c known reasoned =
    let closed =
      row-IsClosed (λ (y : MemoryProposal). y.id) (λ y. is_pending y.status)
        (λ y. y.id == id && y.business_id == b.id) id t.proposals t.outbox.next_uuid c in
    rw (reasoned, known, c.found, closed) refl

-- A decision that succeeds leaves the proposal one revision above the expected one, and rejected unless
-- acceptance was asked. In every state that the service reaches afterwards by policy changes, proposals,
-- decisions and invalidations, a decision on it of any session of the same business, of either verdict
-- and at any revision, whose reason is well formed, is refused as changed. Before the decision the ids
-- of the proposals are distinct and lie below the next one.
pub decide_proposal_once :
    (lib : Libraries) (consumers : List EventConsumer) (context other : AuthContext) (id : Uuid)
    (expected later : ℕ) (accept again : Bool) (reason reason' normalized : String)
    (s s' t : MemoryStore) (x : MemoryProposal) (b : Business)
    → Distinct (λ (y : MemoryProposal). y.id) s.proposals
    → All (λ (y : MemoryProposal). y.id < s.outbox.next_uuid) s.proposals
    → decide_proposal lib consumers context id expected accept reason s ≡ ok (x, s')
    → Reach lib consumers s' t
    → resolve_selected_business t.directory other ≡ some b
    → b.id ≡ x.business_id
    → check_reason lib "Decision reason" reason' ≡ ok normalized
    → (x.revision ≡ expected + 1)
      × ((accept ≡ true) ⊎ (x.status ≡ rejected))
      × (decide_proposal lib consumers other id later again reason' t ≡ err proposal_changed)
decide_proposal_once lib consumers context other id expected later accept again reason reason'
      normalized s s' t x b distinct old h steps known owner reasoned =
    let d = Decision-of_decide lib consumers context id expected accept reason s s' x h in
    let (current, w) =
      Settled-of_settle lib consumers context d.proposal expected accept d.normalized s s' x
        d.settled in
    let (same, scope) =
      keys_of_found (λ (y : MemoryProposal). y.id) (λ y. y.business_id) id d.business.id s.proposals
        d.proposal d.found in
    let decided =
      IsDecided-of_Settled id d.business.id d.proposal accept s s' x distinct old d.found w in
    let at_end =
      reached lib consumers (IsDecided id d.business.id)
        (IsDecided-IsKept id d.business.id lib consumers) s' t decided steps in
    (
      w.revision ∙ ap (λ k. k + 1) current,
      elim (Bool-cases accept) [ inl t ↦ inl t | inr f ↦ inr (w.as_asked f) ],
      refused lib consumers other id later again reason' normalized t b
          (subst (λ k. IsDecided id k t) (sym (owner ∙ w.same_business ∙ scope)) at_end) known
          reasoned,
    )
