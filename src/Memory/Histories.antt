-- ===== src/Memory/Histories.antt =====
-- Sequences of operations of the memory system, and how a property is carried along them.
use foundora_ai.Base.{ℕ, ◌≡◌, String, Bool, nat_eq, string_eq, List, ok, Uuid}
use foundora_ai.Business.{AuthContext}
use foundora_ai.Events.Contracts.{EventConsumer}
use foundora_ai.Memory.Model.{MemoryStore, MemoryProposal, MemoryRecord, MemoryPolicy, Confidence}
use foundora_ai.Memory.Text.{Libraries}
use foundora_ai.Memory.Policy.{update_policy}
use foundora_ai.Memory.Propose.{NewMemory, propose}
use foundora_ai.Memory.Decide.{decide_proposal, invalidate}

-- The operations of the service, from one state to the next, each committed.
pub data Reach (lib : Libraries) (consumers : List EventConsumer)
    : MemoryStore → MemoryStore → Type 0 where
  here : (s : MemoryStore) → Reach lib consumers s s
  by_policy :
      (context : AuthContext) (types : List String) (minimum : Confidence) (expected : ℕ)
      (s s1 s' : MemoryStore) (x : MemoryPolicy)
      → update_policy context types minimum expected s ≡ ok (x, s1)
      → Reach lib consumers s1 s'
      → Reach lib consumers s s'
  by_proposal :
      (context : AuthContext) (n : NewMemory) (s s1 s' : MemoryStore) (x : MemoryProposal)
      → propose lib consumers context n s ≡ ok (x, s1)
      → Reach lib consumers s1 s'
      → Reach lib consumers s s'
  by_decision :
      (context : AuthContext) (id : Uuid) (expected : ℕ) (accept : Bool) (reason : String)
      (s s1 s' : MemoryStore) (x : MemoryProposal)
      → decide_proposal lib consumers context id expected accept reason s ≡ ok (x, s1)
      → Reach lib consumers s1 s'
      → Reach lib consumers s s'
  by_invalidation :
      (context : AuthContext) (id : Uuid) (expected : ℕ) (reason : String) (s s1 s' : MemoryStore)
      (x : MemoryRecord)
      → invalidate lib consumers context id expected reason s ≡ ok (x, s1)
      → Reach lib consumers s1 s'
      → Reach lib consumers s s'

-- A property that every operation keeps.
pub record IsKept (lib : Libraries) (consumers : List EventConsumer) (P : MemoryStore → Type 0)
    : Type 0 where
  pub over_policy :
      (context : AuthContext) (types : List String) (minimum : Confidence) (expected : ℕ)
      (s s' : MemoryStore) (x : MemoryPolicy)
      → P s
      → update_policy context types minimum expected s ≡ ok (x, s')
      → P s'
  pub over_proposal :
      (context : AuthContext) (n : NewMemory) (s s' : MemoryStore) (x : MemoryProposal)
      → P s
      → propose lib consumers context n s ≡ ok (x, s')
      → P s'
  pub over_decision :
      (context : AuthContext) (id : Uuid) (expected : ℕ) (accept : Bool) (reason : String)
      (s s' : MemoryStore) (x : MemoryProposal)
      → P s
      → decide_proposal lib consumers context id expected accept reason s ≡ ok (x, s')
      → P s'
  pub over_invalidation :
      (context : AuthContext) (id : Uuid) (expected : ℕ) (reason : String) (s s' : MemoryStore)
      (x : MemoryRecord)
      → P s
      → invalidate lib consumers context id expected reason s ≡ ok (x, s')
      → P s'

module _ (lib : Libraries) (consumers : List EventConsumer) (P : MemoryStore → Type 0)
    (kept : IsKept lib consumers P) where
  pub reached : (s s' : MemoryStore) → P s → Reach lib consumers s s' → P s'
  reached s _ w (here _) = w
  reached s s' w (by_policy context types minimum expected _ s1 _ x step rest) =
      reached s1 s' (kept.over_policy context types minimum expected s s1 x w step) rest
  reached s s' w (by_proposal context n _ s1 _ x step rest) =
      reached s1 s' (kept.over_proposal context n s s1 x w step) rest
  reached s s' w (by_decision context id expected accept reason _ s1 _ x step rest) =
      reached s1 s' (kept.over_decision context id expected accept reason s s1 x w step) rest
  reached s s' w (by_invalidation context id expected reason _ s1 _ x step rest) =
      reached s1 s' (kept.over_invalidation context id expected reason s s1 x w step) rest
