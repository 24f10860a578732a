-- ===== src/Memory/Audit.antt =====
-- An acceptance is logged: the revision that it appends is the record as it then stands.
use foundora_ai.Base.{
  ℕ, ◌≡◌, ◌⊎◌, inl, inr, refl, sym, ap, subst, ◌∙◌, arith, String, true, ◌&&◌, ◌||◌, not, ◌==◌,
  ◌!=◌, nat_eq, string_eq, eq_self, some, List, [], ◌∷◌, ◌++◌, ok, find, find-put, find-of_found,
  Uuid, Bool-cases, Option-cases,
}
use foundora_ai.Business.{AuthContext}
use foundora_ai.Events.Contracts.{EventConsumer}
use foundora_ai.Memory.Model.{
  Confidence, at_most, at_most_refl, larger, MemoryStore, MemoryProposal, MemoryRecord,
  MemoryRevision, Route, founder,
}
use foundora_ai.Memory.Text.{Libraries}
use foundora_ai.Memory.Accept.{
  accepted_record, merged_record, new_revision, resolved_proposal, is_duplicate,
}
use foundora_ai.Memory.Accept.Written.{Accepted, accept_locked-Accepted}
use foundora_ai.Memory.Decide.{settle_proposal, with_reason, decide_proposal, is_pending}
use foundora_ai.Memory.Runs.{Decision-of_decide}

-- A revision that shows a record as it stands.
pub record Shows (v : MemoryRevision) (r : MemoryRecord) : Type 0 where
  pub memory : v.memory_id ≡ r.id
  pub business : v.business_id ≡ r.business_id
  pub number : v.revision ≡ r.current_revision
  pub title : v.title ≡ r.title
  pub content : v.content ≡ r.content
  pub confidence : v.confidence ≡ r.confidence
  pub key : v.canonical_key ≡ r.canonical_key

-- What the acceptance of a proposal leaves in the tables of records and revisions.
pub record Logged (p : MemoryProposal) (s s' : MemoryStore) (x : MemoryProposal) : Type 0 where
  pub entry : MemoryRecord
  pub resolution : x.resolution_memory_id ≡ some entry.id
  pub revision : MemoryRevision
  pub shows : Shows revision entry
  pub of_proposal : revision.proposal_id ≡ p.id
  pub appended : s'.revisions ≡ s.revisions ++ revision ∷ []
  pub confident : at_most p.confidence entry.confidence ≡ true
  pub stored :
      (s'.records ≡ s.records ++ entry ∷ [])
      ⊎ (find (λ r. r.id == entry.id) s'.records ≡ some entry)

at_most-larger : (a b : Confidence) → at_most b (larger a b) ≡ true
at_most-larger a b = elim (Bool-cases (at_most b a)) [
  | inl t ↦ rw t t
  | inr f ↦ rw f (at_most_refl b)
]

entry_confident :
    (p : MemoryProposal) (route : Route) (context : AuthContext) (s s' : MemoryStore)
    (x : MemoryProposal) (a : Accepted p route context s s' x)
    → at_most p.confidence a.entry.confidence ≡ true
unfolding accepted_record merged_record
entry_confident p route context s s' x a = elim a.records [
  | inl (id, entry, new, rows) ↦
      subst (λ (r : MemoryRecord). at_most p.confidence r.confidence ≡ true) (sym entry)
        (at_most_refl p.confidence)
  | inr (r, found, entry, rows) ↦
      subst (λ (r : MemoryRecord). at_most p.confidence r.confidence ≡ true) (sym entry)
        (at_most-larger r.confidence p.confidence)
]

entry_stored :
    (p : MemoryProposal) (route : Route) (context : AuthContext) (s s' : MemoryStore)
    (x : MemoryProposal) (a : Accepted p route context s s' x)
    → (s'.records ≡ s.records ++ a.entry ∷ [])
      ⊎ (find (λ r. r.id == a.entry.id) s'.records ≡ some a.entry)
unfolding merged_record
entry_stored p route context s s' x a = elim a.records [
  | inl (id, entry, new, rows) ↦ inl rows
  | inr (r, found, entry, rows) ↦
      let q = λ (y : MemoryRecord). y.id == a.entry.id in
      let hit : q r ≡ true = ap (λ (y : MemoryRecord). r.id == y.id) entry ∙ eq_self r.id in
      elim (Option-cases (find q s.records)) [
        | inl missing ↦ absurd (find-of_found (is_duplicate p a.at) q s.records r found hit missing)
        | inr (old, there) ↦
            inr (ap (find q) rows ∙ find-put q a.entry s.records old (eq_self a.entry.id) there)
      ]
]

Logged-of_Accepted :
    (p : MemoryProposal) (route : Route) (context : AuthContext) (s s' : MemoryStore)
    (x : MemoryProposal)
    → Accepted p route context s s' x
    → Logged p s s' x
unfolding new_revision resolved_proposal
Logged-of_Accepted p route context s s' x a = record {
  entry = a.entry;
  resolution = ap (λ (y : MemoryProposal). y.resolution_memory_id) a.result;
  revision = new_revision a.entry p a.change route context a.at a.revision_id;
  shows = record {
    memory = refl;
    business = refl;
    number = refl;
    title = refl;
    content = refl;
    confidence = refl;
    key = refl;
  };
  of_proposal = refl;
  appended = a.revisions;
  confident = entry_confident p route context s s' x a;
  stored = entry_stored p route context s s' x a;
}

-- An acceptance by the founder that succeeds stores a record, new or found under its id, names it in the
-- proposal, and appends one revision that is of the proposal found and shows the record as it is stored, with
-- its number, its text, its key and its confidence, which is at least the proposal's.
pub decide_proposal-Logged :
    (lib : Libraries) (consumers : List EventConsumer) (context : AuthContext) (id : Uuid)
    (expected : ℕ) (reason : String) (s s' : MemoryStore) (x : MemoryProposal)
    → decide_proposal lib consumers context id expected true reason s ≡ ok (x, s')
    → (p : MemoryProposal) × (b : Uuid) × (find (λ y. y.id == id && y.business_id == b) s.proposals
        ≡ some p)
      × Logged p s s' x
unfolding settle_proposal with_reason
decide_proposal-Logged lib consumers context id expected reason s s' x h =
    let d = Decision-of_decide lib consumers context id expected true reason s s' x h in
    elim (Bool-cases (not (is_pending d.proposal.status) || d.proposal.revision != expected)) [
      | inl t ↦ absurd (ground (arith, d.settled))
      | inr f ↦
          let l = Logged-of_Accepted _ founder context s s' x (
            accept_locked-Accepted lib consumers context (with_reason d.proposal d.normalized)
              founder s s' x (rw f at d.settled)) in
          (
            d.proposal,
            d.business.id,
            d.found,
            record {
              entry = l.entry;
              resolution = l.resolution;
              revision = l.revision;
              shows = l.shows;
              of_proposal = l.of_proposal;
              appended = l.appended;
              confident = l.confident;
              stored = l.stored;
            },
          )
    ]
