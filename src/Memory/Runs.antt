-- ===== src/Memory/Runs.antt =====
-- The parts of the runs of memory/service.py that succeed.
use foundora_ai.Base.{
  ℕ, suc, ◌≡◌, inl, inr, refl, String, Bool, false, ◌&&◌, ◌||◌, not, ◌==◌, ◌!=◌, nat_eq, string_eq,
  some, List, ok, find, arith, Uuid, Result-cases, Bool-cases, Option-cases,
}
use foundora_ai.Business.{AuthContext, Business, resolve_selected_business}
use foundora_ai.Events.Contracts.{EventConsumer}
use foundora_ai.Memory.Model.{MemoryStore, MemoryProposal, MemoryRecord}
use foundora_ai.Memory.Text.{Libraries, check_reason}
use foundora_ai.Memory.Session.{selected_business}
use foundora_ai.Memory.Sources.{ResolvedSource, resolve_source}
use foundora_ai.Memory.Policy.{policy_for}
use foundora_ai.Memory.Accept.{is_active}
use foundora_ai.Memory.Propose.{
  NewMemory, Checked, check_arguments, check_execution, route_by, new_proposal, insert_proposal,
  propose,
}
use foundora_ai.Memory.Decide.{
  settle_proposal, find_proposal, decide_proposal, write_invalidation, find_record, invalidate,
}

-- The parts of a decision that succeeds.
pub record Decision (lib : Libraries) (consumers : List EventConsumer) (context : AuthContext)
    (id : Uuid) (expected : ℕ) (accept : Bool) (s s' : MemoryStore) (x : MemoryProposal)
    : Type 0 where
  pub business : Business
  pub known : resolve_selected_business s.directory context ≡ some business
  pub proposal : MemoryProposal
  pub found : find (λ p. p.id == id && p.business_id == business.id) s.proposals ≡ some proposal
  pub normalized : String
  pub settled :
      settle_proposal lib consumers context proposal expected accept normalized s ≡ ok (x, s')

pub Decision-of_decide :
    (lib : Libraries) (consumers : List EventConsumer) (context : AuthContext) (id : Uuid)
    (expected : ℕ) (accept : Bool) (reason : String) (s s' : MemoryStore) (x : MemoryProposal)
    → decide_proposal lib consumers context id expected accept reason s ≡ ok (x, s')
    → Decision lib consumers context id expected accept s s' x
unfolding decide_proposal find_proposal selected_business
Decision-of_decide lib consumers context id expected accept reason s s' x h =
    elim (Result-cases (check_reason lib "Decision reason" reason)) [
      | inr (e, bad) ↦ absurd (ground arith)
      | inl (normalized, reasoned) ↦
          elim (Option-cases (resolve_selected_business s.directory context)) [
            | inl unknown ↦ absurd (ground arith)
            | inr (b, known) ↦
                elim (Option-cases (find (λ p. p.id == id && p.business_id == b.id) s.proposals)) [
                  | inl missing ↦ absurd (ground arith)
                  | inr (p, found) ↦ record {
                    business = b;
                    known = known;
                    proposal = p;
                    found = found;
                    normalized = normalized;
                    settled = rw (reasoned, known, found) at h;
                  }
                ]
          ]
    ]

-- The parts of an invalidation that succeeds.
pub record Invalidation (lib : Libraries) (consumers : List EventConsumer) (context : AuthContext)
    (id : Uuid) (expected : ℕ) (s s' : MemoryStore) (x : MemoryRecord) : Type 0 where
  pub business : Business
  pub known : resolve_selected_business s.directory context ≡ some business
  pub entry : MemoryRecord
  pub found : find (λ r. r.id == id && r.business_id == business.id) s.records ≡ some entry
  pub current : (not (is_active entry.status) || entry.current_revision != expected) ≡ false
  pub normalized : String
  pub written : write_invalidation lib consumers entry normalized s ≡ ok (x, s')

pub Invalidation-of_invalidate :
    (lib : Libraries) (consumers : List EventConsumer) (context : AuthContext) (id : Uuid)
    (expected : ℕ) (reason : String) (s s' : MemoryStore) (x : MemoryRecord)
    → invalidate lib consumers context id expected reason s ≡ ok (x, s')
    → Invalidation lib consumers context id expected s s' x
unfolding invalidate find_record selected_business
Invalidation-of_invalidate lib consumers context id expected reason s s' x h =
    elim (Result-cases (check_reason lib "Invalidation reason" reason)) [
      | inr (e, bad) ↦ absurd (ground arith)
      | inl (normalized, reasoned) ↦
          elim (Option-cases (resolve_selected_business s.directory context)) [
            | inl unknown ↦ absurd (ground arith)
            | inr (b, known) ↦
                elim (Option-cases (find (λ r. r.id == id && r.business_id == b.id) s.records)) [
                  | inl missing ↦ absurd (ground arith)
                  | inr (r, found) ↦
                      elim (Bool-cases
                        (not (is_active r.status) || r.current_revision != expected)) [
                          | inl changed ↦ absurd (ground arith)
                          | inr current ↦ record {
                            business = b;
                            known = known;
                            entry = r;
                            found = found;
                            current = current;
                            normalized = normalized;
                            written = rw (reasoned, known, found, current) at h;
                          }
                        ]
                ]
          ]
    ]

-- The parts of a proposal that succeeds.
pub record Proposal (lib : Libraries) (consumers : List EventConsumer) (context : AuthContext)
    (n : NewMemory) (s s' : MemoryStore) (x : MemoryProposal) : Type 0 where
  pub checked : Checked
  pub middle : MemoryStore
  pub arguments : check_arguments lib n s ≡ ok (checked, middle)
  pub business : Business
  pub known : resolve_selected_business middle.directory context ≡ some business
  pub source : ResolvedSource
  pub resolved : resolve_source lib middle business.id n.source ≡ ok source
  pub id : Uuid
  pub id_is : id ≡ middle.outbox.next_uuid
  pub state : MemoryStore
  pub state_is :
      state
      ≡ record middle { outbox = record middle.outbox { next_uuid = suc middle.outbox.next_uuid } }
  pub inserted :
      insert_proposal lib consumers context
        (new_proposal lib business.id context n checked source
          (route_by (policy_for business.id middle.policies) n source)
          id)
        state
      ≡ ok (x, s')

check_execution-keeps :
    (lib : Libraries) (business_id : Uuid) (n : NewMemory) (s s' : MemoryStore)
    → check_execution lib business_id n s ≡ ok (tt, s')
    → s' ≡ s
unfolding check_execution
check_execution-keeps lib business_id n s s' h = ground arith

pub Proposal-of_propose :
    (lib : Libraries) (consumers : List EventConsumer) (context : AuthContext) (n : NewMemory)
    (s s' : MemoryStore) (x : MemoryProposal)
    → propose lib consumers context n s ≡ ok (x, s')
    → Proposal lib consumers context n s s' x
unfolding propose selected_business
Proposal-of_propose lib consumers context n s s' x h =
    elim (Result-cases (check_arguments lib n s)) [
      | inr (e, bad) ↦ absurd (ground arith)
      | inl ((c, s1), arguments) ↦
          elim (Option-cases (resolve_selected_business s1.directory context)) [
            | inl unknown ↦ absurd (ground arith)
            | inr (b, known) ↦ elim (Result-cases (check_execution lib b.id n s1)) [
              | inr (e, bad) ↦ absurd (ground arith)
              | inl ((u, s2), executed) ↦
                  let same = check_execution-keeps lib b.id n s1 s2 executed in
                  elim (Result-cases (resolve_source lib s1 b.id n.source)) [
                    | inr (e, bad) ↦ absurd (ground arith)
                    | inl (source, resolved) ↦ record {
                      checked = c;
                      middle = s1;
                      arguments = arguments;
                      business = b;
                      known = known;
                      source = source;
                      resolved = resolved;
                      id = s1.outbox.next_uuid;
                      id_is = refl;
                      state = _;
                      state_is = refl;
                      inserted = rw resolved at (rw same at (rw (arguments, known, executed) at h));
                    }
                  ]
            ]
          ]
    ]
