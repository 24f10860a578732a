-- ===== src/Memory/Constraints/Reach.antt =====
-- Sequences of operations of the memory system keep the constraints of its tables.
use foundora_ai.Base.{List}
use foundora_ai.Events.Contracts.{EventConsumer}
use foundora_ai.Memory.Model.{MemoryStore}
use foundora_ai.Memory.Text.{Libraries}
use foundora_ai.Memory.Histories.{Reach, IsKept, reached}
use foundora_ai.Memory.Constraints.Kept.{IsWellFormed}
use foundora_ai.Memory.Constraints.Operations.{
  decide_proposal-IsWellFormed, invalidate-IsWellFormed, update_policy-IsWellFormed,
  propose-IsWellFormed,
}

IsWellFormed-IsKept :
    (lib : Libraries) (consumers : List EventConsumer) → IsKept lib consumers IsWellFormed
IsWellFormed-IsKept lib consumers = record {
  over_policy = update_policy-IsWellFormed;
  over_proposal = propose-IsWellFormed lib consumers;
  over_decision = decide_proposal-IsWellFormed lib consumers;
  over_invalidation = invalidate-IsWellFormed lib consumers;
}

-- Any sequence of policy changes, proposals, decisions and invalidations that succeed, begun where
-- every policy, proposal, record and revision satisfies the CHECK constraints of its table, ends where every one
-- of them does: types with their epistemic statuses, working memory scoped and the rest not, facts
-- accepted by the founder alone, sources identified, confidences from zero to one, revisions above zero.
pub memory-IsWellFormed :
    (lib : Libraries) (consumers : List EventConsumer) (s s' : MemoryStore)
    → IsWellFormed s
    → Reach lib consumers s s'
    → IsWellFormed s'
memory-IsWellFormed lib consumers s s' w r =
    reached lib consumers IsWellFormed (IsWellFormed-IsKept lib consumers) s s' w r
