-- ===== src/Memory/Retrieve.antt =====
-- `retrieve_memories` and `dashboard` of memory/service.py, which only read. Where the ORDER BY of a
-- query leaves rows equal, they keep the order of their insertion.
pub mod Visible
use foundora_ai.Base.{
  ℕ, String, Bool, true, false, ◌&&◌, ◌||◌, not, Option, none, some, List, [], ◌∷◌, map, pure,
  raise_if, ◌>>=◌, ◌>>◌, gets, ◌==◌, ◌!=◌, nat_eq, string_eq, option_eq, if◌then◌else◌, ltb, leb,
  is_nil, all, contains, filter, Uuid, Datetime, is_empty, strip, sort_by, take,
}
use Prim.Native.Nat.{Ordering}
use Prim.Native.String.{compare, ◌++◌ as ◌+++◌}
use foundora_ai.Business.{AuthContext, is_none}
use foundora_ai.Memory.Model.{
  MemoryPolicy, MemoryProposal, MemoryRecord, MemoryRevision, MemoryProvenance, Confidence, units,
  at_most, less, unsupported_type, blank_query, unsupported_status, scope_incomplete,
}
use foundora_ai.Memory.Text.{Libraries, epistemic_of_type}
use foundora_ai.Memory.Session.{Work, now, selected_business}
use foundora_ai.Memory.Policy.{policy_for}
use foundora_ai.Memory.Accept.{is_active, is_unexpired}

-- The arguments of a query that do not depend on the business. An empty list of types or statuses
-- does not restrict the query.
pub record Filter : Type 0 where
  pub memory_types : List String
  pub epistemic_statuses : List String
  pub query : Option String
  pub execution_type : Option String
  pub execution_id : Option Uuid

unfoldable pub is_one_of : List String → String → Bool
is_one_of members t = is_nil members || contains members t

-- `if query: ...`
unfoldable pub matches_query : Libraries → Option String → MemoryRecord → Bool
matches_query lib none r = true
matches_query lib (some query) r =
    let term = "%" +++ (strip query +++ "%") in
    is_empty query || (lib.ilike term r.title || lib.ilike term r.content)

-- Working memory is seen by the execution that it is for.
unfoldable pub in_scope : Option String → Option Uuid → MemoryRecord → Bool
in_scope execution_type execution_id r =
    if not (is_none execution_type) && not (is_none execution_id)
    then r.memory_type != "working"
      || (r.execution_type == execution_type && r.execution_id == execution_id)
    else r.memory_type != "working"

unfoldable pub is_retrieved : Libraries → Uuid → Filter → Datetime → MemoryRecord → Bool
is_retrieved lib business_id f at r =
    r.business_id == business_id
    && (is_active r.status
        && (is_unexpired r.expires_at at
            && (is_one_of f.memory_types r.memory_type
                && (is_one_of f.epistemic_statuses r.epistemic_status
                    && (in_scope f.execution_type f.execution_id r
                        && matches_query lib f.query r)))))

-- `order_by(desc(confidence), desc(updated_at))`
unfoldable pub ranks_before : MemoryRecord → MemoryRecord → Bool
ranks_before a b =
    less b.confidence a.confidence
    || ((at_most a.confidence b.confidence && at_most b.confidence a.confidence)
        && leb b.updated_at a.updated_at)

unfoldable pub retrieve_memories : Libraries → Uuid → Filter → ℕ → Work (List MemoryRecord)
retrieve_memories lib business_id f limit = do
  at ← now
  records ← gets (λ s. s.records)
  pure (take limit (sort_by ranks_before (filter (is_retrieved lib business_id f at) records)))

pub record PolicyState : Type 0 where
  pub automatic_accept_types : List String
  pub minimum_confidence : Confidence
  pub revision : ℕ
  pub persisted : Bool

-- The order of `sorted` on texts.
abbrev text_leb : String → String → Bool
text_leb a b = elim (compare a b) [ Ordering.gt ↦ false | _ ↦ true ]

unfoldable pub policy_state : Option MemoryPolicy → PolicyState
policy_state none = record {
  automatic_accept_types = [];
  minimum_confidence = units 900000;
  revision = 0;
  persisted = false;
}
policy_state (some p) = record {
  automatic_accept_types = sort_by text_leb p.automatic_accept_types;
  minimum_confidence = p.minimum_confidence;
  revision = p.revision;
  persisted = true;
}

pub record MemoryEntry : Type 0 where
  pub entry : MemoryRecord
  pub revisions : List MemoryRevision
  pub provenance : List MemoryProvenance

pub record MemoryDashboard : Type 0 where
  pub business_id : Uuid
  pub policy : PolicyState
  pub proposals : List MemoryProposal
  pub memories : List MemoryEntry

unfoldable pub entry_of : List MemoryRevision → List MemoryProvenance → MemoryRecord → MemoryEntry
entry_of revisions provenance r = record {
  entry = r;
  revisions =
      sort_by (λ a b. leb a.revision b.revision) (filter (λ x. x.memory_id == r.id) revisions);
  provenance =
      sort_by (λ a b. leb a.revision b.revision) (filter (λ x. x.memory_id == r.id) provenance);
}

-- The query of `if include_inactive`.
unfoldable pub all_memories : Libraries → Uuid → Filter → List MemoryRecord → List MemoryRecord
all_memories lib business_id f records = take 100 (
    sort_by (λ a b. leb b.updated_at a.updated_at)
      (filter
        (λ r.
          r.business_id == business_id
          && (is_one_of f.memory_types r.memory_type
              && (is_one_of f.epistemic_statuses r.epistemic_status
                  && matches_query lib f.query r)))
        records))

unfoldable pub listed_memories : Libraries → Uuid → Filter → Bool → Work (List MemoryRecord)
listed_memories lib business_id f true = do
  records ← gets (λ s. s.records)
  pure (all_memories lib business_id f records)
listed_memories lib business_id f false = retrieve_memories lib business_id f 100

-- `MEMORY_TYPES`, the keys of EPISTEMIC_BY_TYPE, and `EPISTEMIC_STATUSES`.
abbrev pub is_memory_type : String → Bool
is_memory_type t = not (is_none (epistemic_of_type t))

unfoldable pub epistemic_statuses : List String
epistemic_statuses =
    "observation" ∷ "assumption" ∷ "fact" ∷ "decision" ∷ "preference" ∷ "procedure" ∷ "evaluation"
    ∷ []

abbrev is_blank_query : Option String → Bool
is_blank_query none = false
is_blank_query (some q) = is_empty (strip q)

abbrev differ : Bool → Bool → Bool
differ true b = not b
differ false b = b

unfoldable pub check_filter : Filter → Work (Unit {0})
check_filter f = do
  raise_if (not (all is_memory_type f.memory_types)) unsupported_type
  raise_if (not (all (contains epistemic_statuses) f.epistemic_statuses)) unsupported_status
  raise_if (differ (is_none f.execution_type) (is_none f.execution_id)) scope_incomplete
  raise_if (is_blank_query f.query) blank_query

unfoldable pub dashboard : Libraries → AuthContext → Filter → Bool → Work MemoryDashboard
dashboard lib context f include_inactive = do
  check_filter f
  business ← selected_business context
  store ← gets (λ s. s)
  records ← listed_memories lib business.id f include_inactive
  pure (record {
    business_id = business.id;
    policy = policy_state (policy_for business.id store.policies);
    proposals = take 100 (
        sort_by (λ a b. leb b.created_at a.created_at)
          (filter (λ p. p.business_id == business.id) store.proposals));
    memories = map (entry_of store.revisions store.provenance) records;
  })
