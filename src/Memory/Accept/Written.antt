-- ===== src/Memory/Accept/Written.antt =====
-- What an acceptance writes to the tables of proposals, records and revisions.
use foundora_ai.Base.{
  suc, ◌≤◌, ◌≡◌, ◌⊎◌, inl, inr, refl, sym, ap, subst, ◌∙◌, true, false, ◌&&◌, ◌==◌, nat_eq,
  string_eq, Option, none, some, List, [], ◌∷◌, ◌++◌, ok, pure, put, find, arith, Uuid, Datetime,
  Result-cases, Bool-cases, ok-injective,
}
use foundora_ai.Business.{AuthContext}
use foundora_ai.Events.Contracts.{EventConsumer}
use foundora_ai.Events.Publish.{Request, publish_event}
use foundora_ai.Events.Publish.Insert.{publish_event-later}
use foundora_ai.Memory.Model.{MemoryStore, MemoryProposal, MemoryRecord, ChangeType, Route}
use foundora_ai.Memory.Text.{Libraries}
use foundora_ai.Memory.Session.{publish, announce}
use foundora_ai.Memory.Accept.{
  accepted_record, merged_record, new_revision, resolved_proposal, record_change, insert_record,
  accept_into, accept_locked, is_duplicate, is_automatic, is_unexpired,
}

-- The tables that a publication leaves as they are.
pub record Unchanged (s s' : MemoryStore) : Type 0 where
  pub directory : s'.directory ≡ s.directory
  pub policies : s'.policies ≡ s.policies
  pub proposals : s'.proposals ≡ s.proposals
  pub records : s'.records ≡ s.records
  pub revisions : s'.revisions ≡ s.revisions
  pub later : s.outbox.next_uuid ≤ s'.outbox.next_uuid

publish-later :
    (lib : Libraries) (consumers : List EventConsumer) (r : Request) (s s' : MemoryStore)
    → publish lib consumers r s ≡ ok (tt, s')
    → s.outbox.next_uuid ≤ s'.outbox.next_uuid
unfolding publish
publish-later lib consumers r s s' h =
    elim (Result-cases (publish_event lib.external consumers r (s.clock s.ticks) s.outbox)) [
      | inr (e, bad) ↦ absurd (ground arith)
      | inl ((event, o), good) ↦
          let after : MemoryStore = record s { ticks = suc s.ticks; outbox = o } in
          let state : after ≡ s' = ground arith in
          subst (λ (w : MemoryStore). s.outbox.next_uuid ≤ w.outbox.next_uuid) state
            (publish_event-later lib.external consumers r (s.clock s.ticks) s.outbox event o good)
    ]

pub publish-Unchanged :
    (lib : Libraries) (consumers : List EventConsumer) (r : Request) (s s' : MemoryStore)
    → publish lib consumers r s ≡ ok (tt, s')
    → Unchanged s s'
unfolding publish
publish-Unchanged lib consumers r s s' h = record {
  directory = ground arith;
  policies = ground arith;
  proposals = ground arith;
  records = ground arith;
  revisions = ground arith;
  later = publish-later lib consumers r s s' h;
}

pub announce-Unchanged :
    {A : Type 0} (lib : Libraries) (consumers : List EventConsumer) (r : Request) (a x : A)
    (s s' : MemoryStore)
    → announce lib consumers r a s ≡ ok (x, s')
    → (x ≡ a) × Unchanged s s'
unfolding announce
announce-Unchanged lib consumers r a x s s' h = elim (Result-cases (publish lib consumers r s)) [
  | inr (e, bad) ↦ absurd (ground arith)
  | inl ((u, s1), good) ↦
      let (result, state) = ok-injective (pure a s1) refl (rw good at h) in
      (sym result, subst (Unchanged s) state (publish-Unchanged lib consumers r s s1 good))
]

-- What a change of the record r for the proposal p leaves.
pub record Recorded (p : MemoryProposal) (r : MemoryRecord) (change : ChangeType) (route : Route)
    (context : AuthContext) (at : Datetime) (s s' : MemoryStore) (x : MemoryProposal) : Type 0 where
  pub result : x ≡ resolved_proposal p r change route context at
  pub directory : s'.directory ≡ s.directory
  pub policies : s'.policies ≡ s.policies
  pub proposals : s'.proposals ≡ put (λ y. y.id == p.id) x s.proposals
  pub records : s'.records ≡ s.records
  pub revision_id : Uuid
  pub revisions :
      s'.revisions ≡ s.revisions ++ new_revision r p change route context at revision_id ∷ []
  pub later : s.outbox.next_uuid ≤ s'.outbox.next_uuid

record_change-Recorded :
    (lib : Libraries) (consumers : List EventConsumer) (context : AuthContext) (p : MemoryProposal)
    (r : MemoryRecord) (change : ChangeType) (route : Route) (at : Datetime) (s s' : MemoryStore)
    (x : MemoryProposal)
    → record_change lib consumers context p r change route at s ≡ ok (x, s')
    → Recorded p r change route context at s s' x
unfolding record_change resolved_proposal
record_change-Recorded lib consumers context p r change route at s s' x h =
    let (result, u) = announce-Unchanged lib consumers _ _ x _ s' h in
    record {
      result = result;
      directory = u.directory;
      policies = u.policies;
      proposals = u.proposals ∙ ap (λ y. put (λ z. z.id == p.id) y s.proposals) (sym result);
      records = u.records;
      revision_id = s.outbox.next_uuid;
      revisions = u.revisions;
      later = let n = u.later in omega arith;
    }

-- What an acceptance finds and leaves: the record that it inserts or merges into.
pub record Accepted (p : MemoryProposal) (route : Route) (context : AuthContext)
    (s s' : MemoryStore) (x : MemoryProposal) : Type 0 where
  pub allowed : (p.epistemic_status == "fact" && is_automatic route) ≡ false
  pub at : Datetime
  pub unexpired : is_unexpired p.expires_at at ≡ true
  pub change : ChangeType
  pub entry : MemoryRecord
  pub result : x ≡ resolved_proposal p entry change route context at
  pub directory : s'.directory ≡ s.directory
  pub policies : s'.policies ≡ s.policies
  pub proposals : s'.proposals ≡ put (λ y. y.id == p.id) x s.proposals
  pub revision_id : Uuid
  pub revisions :
      s'.revisions ≡ s.revisions ++ new_revision entry p change route context at revision_id ∷ []
  pub later : s.outbox.next_uuid ≤ s'.outbox.next_uuid
  pub records :
      ((id : Uuid) × (entry ≡ accepted_record p route context at id)
        × (s.outbox.next_uuid ≤ id)
        × (s'.records ≡ s.records ++ entry ∷ []))
      ⊎ ((r : MemoryRecord) × (find (is_duplicate p at) s.records ≡ some r)
          × (entry ≡ merged_record r p at)
          × (s'.records ≡ put (λ y. y.id == entry.id) entry s.records))

accept_into-Accepted :
    (lib : Libraries) (consumers : List EventConsumer) (context : AuthContext) (p : MemoryProposal)
    (route : Route) (at : Datetime) (duplicate : Option MemoryRecord) (s s' : MemoryStore)
    (x : MemoryProposal)
    → (p.epistemic_status == "fact" && is_automatic route) ≡ false
    → is_unexpired p.expires_at at ≡ true
    → find (is_duplicate p at) s.records ≡ duplicate
    → accept_into lib consumers context p route at duplicate s ≡ ok (x, s')
    → Accepted p route context s s' x
unfolding accept_into insert_record
accept_into-Accepted lib consumers context p route at none s s' x allowed fresh found h =
    let r =
      record_change-Recorded lib consumers context p _ ChangeType.accepted route at _ s' x h in
    record {
      allowed = allowed;
      at = at;
      unexpired = fresh;
      change = ChangeType.accepted;
      entry = accepted_record p route context at s.outbox.next_uuid;
      result = r.result;
      directory = r.directory;
      policies = r.policies;
      proposals = r.proposals;
      revision_id = r.revision_id;
      revisions = r.revisions;
      later = let n = r.later in omega arith;
      records = inl (s.outbox.next_uuid, refl, omega arith, r.records);
    }
accept_into-Accepted lib consumers context p route at (some d) s s' x allowed fresh found h =
    let r = record_change-Recorded lib consumers context p _ ChangeType.merged route at _ s' x h in
    record {
      allowed = allowed;
      at = at;
      unexpired = fresh;
      change = ChangeType.merged;
      entry = merged_record d p at;
      result = r.result;
      directory = r.directory;
      policies = r.policies;
      proposals = r.proposals;
      revision_id = r.revision_id;
      revisions = r.revisions;
      later = r.later;
      records = inr (d, found, refl, r.records);
    }

pub accept_locked-Accepted :
    (lib : Libraries) (consumers : List EventConsumer) (context : AuthContext) (p : MemoryProposal)
    (route : Route) (s s' : MemoryStore) (x : MemoryProposal)
    → accept_locked lib consumers context p route s ≡ ok (x, s')
    → Accepted p route context s s' x
unfolding accept_locked
accept_locked-Accepted lib consumers context p route s s' x h =
    elim (Bool-cases (p.epistemic_status == "fact" && is_automatic route)) [
      | inl t ↦ absurd (ground arith)
      | inr allowed ↦ elim (Bool-cases (is_unexpired p.expires_at (s.clock s.ticks))) [
        | inr f ↦ absurd (ground arith)
        | inl fresh ↦
            let a =
              accept_into-Accepted lib consumers context p route (s.clock s.ticks) _ _ s' x allowed
                fresh refl (rw (allowed, fresh) at h) in
            record {
              allowed = allowed;
              at = a.at;
              unexpired = a.unexpired;
              change = a.change;
              entry = a.entry;
              result = a.result;
              directory = a.directory;
              policies = a.policies;
              proposals = a.proposals;
              revision_id = a.revision_id;
              revisions = a.revisions;
              later = a.later;
              records = a.records;
            }
      ]
    ]
