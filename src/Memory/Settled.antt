-- ===== src/Memory/Settled.antt =====
-- What a decision on a proposal writes (memory/service.py).
use foundora_ai.Base.{
  ℕ, ◌+◌, ◌≤◌, subst, ◌≡◌, inl, inr, refl, sym, ap, ◌∙◌, arith, String, Bool, true, false, ◌||◌,
  not, ◌==◌, ◌!=◌, nat_eq, string_eq, List, ok, put, Bool-cases, ok-injective,
}
use foundora_ai.Business.{AuthContext}
use foundora_ai.Events.Contracts.{EventConsumer}
use foundora_ai.Memory.Model.{MemoryStore, MemoryProposal, rejected, founder, ChangeType}
use foundora_ai.Memory.Text.{Libraries}
use foundora_ai.Memory.Accept.{resolved_proposal, status_of_change}
use foundora_ai.Memory.Accept.Written.{accept_locked-Accepted}
use foundora_ai.Memory.Decide.{rejected_proposal, reject, with_reason, settle_proposal, is_pending}

-- What a decision writes for the proposal that it finds.
pub record Settled (p : MemoryProposal) (accept : Bool) (s s' : MemoryStore) (x : MemoryProposal)
    : Type 0 where
  pub was_pending : is_pending p.status ≡ true
  pub decided : is_pending x.status ≡ false
  pub as_asked : accept ≡ false → x.status ≡ rejected
  pub same_id : x.id ≡ p.id
  pub same_business : x.business_id ≡ p.business_id
  pub revision : x.revision ≡ p.revision + 1
  pub directory : s'.directory ≡ s.directory
  pub proposals : s'.proposals ≡ put (λ y. y.id == p.id) x s.proposals
  pub later : s.outbox.next_uuid ≤ s'.outbox.next_uuid

pub not_pending : (change : ChangeType) → is_pending (status_of_change change) ≡ false
not_pending ChangeType.accepted = refl
not_pending ChangeType.merged = refl

pub Settled-of_settle :
    (lib : Libraries) (consumers : List EventConsumer) (context : AuthContext) (p : MemoryProposal)
    (expected : ℕ) (accept : Bool) (reason : String) (s s' : MemoryStore) (x : MemoryProposal)
    → settle_proposal lib consumers context p expected accept reason s ≡ ok (x, s')
    → (p.revision ≡ expected) × Settled p accept s s' x
unfolding settle_proposal with_reason resolved_proposal reject rejected_proposal
Settled-of_settle lib consumers context p expected true reason s s' x h =
    elim (Bool-cases (not (is_pending p.status) || p.revision != expected)) [
      | inl t ↦ absurd (ground arith)
      | inr f ↦
          let a =
            accept_locked-Accepted lib consumers context (with_reason p reason) founder s s' x
              (rw f at h) in
          (
            ground arith,
            record {
              was_pending = ground arith;
              decided =
                  ap (λ (y : MemoryProposal). is_pending y.status) a.result ∙ not_pending a.change;
              as_asked = λ e. absurd (ground arith);
              same_id = ap (λ (y : MemoryProposal). y.id) a.result;
              same_business = ap (λ (y : MemoryProposal). y.business_id) a.result;
              revision = ap (λ (y : MemoryProposal). y.revision) a.result;
              directory = a.directory;
              proposals = a.proposals;
              later = a.later;
            },
          )
    ]
Settled-of_settle lib consumers context p expected false reason s s' x h =
    elim (Bool-cases (not (is_pending p.status) || p.revision != expected)) [
      | inl t ↦ absurd (ground arith)
      | inr f ↦
          let (result, state) = ok-injective (reject context p reason s) refl (rw f at h) in
          (
            ground arith,
            record {
              was_pending = ground arith;
              decided = ap (λ (y : MemoryProposal). is_pending y.status) (sym result);
              as_asked = λ e. ap (λ (y : MemoryProposal). y.status) (sym result);
              same_id = ap (λ (y : MemoryProposal). y.id) (sym result);
              same_business = ap (λ (y : MemoryProposal). y.business_id) (sym result);
              revision = ap (λ (y : MemoryProposal). y.revision) (sym result);
              directory = ap (λ (w : MemoryStore). w.directory) (sym state);
              proposals =
                  ap (λ (w : MemoryStore). w.proposals) (sym state)
                  ∙ ap (λ y. put (λ z. z.id == p.id) y s.proposals) result;
              later =
                  subst (λ (w : MemoryStore). s.outbox.next_uuid ≤ w.outbox.next_uuid) state
                    (omega arith);
            },
          )
    ]
