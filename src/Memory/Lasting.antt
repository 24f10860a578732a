-- ===== src/Memory/Lasting.antt =====
-- What does not change any more: decided proposals and invalidated records.
pub mod Proposals
pub mod Records
use foundora_ai.Base.{
  ℕ, suc, ◌≤◌, ◌<◌, ◌≡◌, inl, inr, refl, sym, ap, subst, ◌∙◌, arith, String, Bool, true, false,
  ◌&&◌, ◌||◌, not, ◌!=◌, Option, some, none, List, [], ◌∷◌, ◌++◌, ok, pure, put, find, find_sound,
  ◌==◌, nat_eq, string_eq, Uuid, Bool-cases, Result-cases, Option-cases, ok-injective, IsClosed,
  apart, IsClosed-later, IsClosed-insert, IsClosed-put,
}
use foundora_ai.Business.{AuthContext}
use foundora_ai.Events.Contracts.{EventConsumer}
use foundora_ai.Memory.Model.{
  MemoryStore, MemoryProposal, MemoryRecord, MemoryPolicy, Route, automatic, Confidence,
}
use foundora_ai.Memory.Text.{Libraries}
use foundora_ai.Memory.Session.{publish, selected_business}
use foundora_ai.Memory.Policy.{insert_policy, write_policy, save_policy, policy_for, update_policy}
use foundora_ai.Memory.Accept.{
  is_active, is_automatic, is_duplicate, accepted_record, merged_record, resolved_proposal,
}
use foundora_ai.Memory.Accept.Written.{
  Unchanged, publish-Unchanged, announce-Unchanged, Accepted, accept_locked-Accepted,
}
use foundora_ai.Memory.Propose.{
  NewMemory, new_proposal, accept_if_automatic, insert_proposal, proposal_request, propose,
}
use foundora_ai.Memory.Decide.{
  is_pending, invalidated_record, write_invalidation, decide_proposal, invalidate,
}
use foundora_ai.Memory.Constraints.Kept.{check_arguments-Unchanged}
use foundora_ai.Memory.Runs.{Decision-of_decide, Invalidation-of_invalidate, Proposal-of_propose}
use foundora_ai.Memory.Settled.{Settled, Settled-of_settle}
use foundora_ai.Memory.Histories.{IsKept}

-- The parts of the store that a policy does not touch.
pub update_policy_keeps :
    (context : AuthContext) (types : List String) (minimum : Confidence) (expected : ℕ)
    (s s' : MemoryStore) (x : MemoryPolicy)
    → update_policy context types minimum expected s ≡ ok (x, s')
    → (s'.proposals ≡ s.proposals)
      × (s'.records ≡ s.records)
      × (s'.outbox ≡ s.outbox)
      × (s'.directory ≡ s.directory)
unfolding update_policy save_policy insert_policy write_policy selected_business
update_policy_keeps context types minimum expected s s' x h =
    (ground arith, ground arith, ground arith, ground arith)

pub no_less : (s s' : MemoryStore) → s'.outbox ≡ s.outbox → s.outbox.next_uuid ≤ s'.outbox.next_uuid
no_less s s' e = subst (λ o. s.outbox.next_uuid ≤ o.next_uuid) (sym e) (omega arith)
