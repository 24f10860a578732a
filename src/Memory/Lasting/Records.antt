-- ===== src/Memory/Lasting/Records.antt =====
-- A record that is invalidated stays so, whatever the service does afterwards.
use foundora_ai.Base.{
  ℕ, ◌≤◌, ◌≡◌, inl, inr, refl, sym, ap, subst, ◌∙◌, arith, String, Bool, true, false, ◌&&◌, ◌||◌,
  not, ◌!=◌, some, List, [], ◌∷◌, ◌++◌, ok, pure, put, find, find_sound, ◌==◌, nat_eq, string_eq,
  Uuid, Bool-cases, Result-cases, ok-injective, IsClosed, apart, IsClosed-later, IsClosed-insert,
  IsClosed-put,
}
use foundora_ai.Business.{AuthContext}
use foundora_ai.Events.Contracts.{EventConsumer}
use foundora_ai.Memory.Model.{MemoryStore, MemoryProposal, MemoryRecord, Route, founder, automatic}
use foundora_ai.Memory.Text.{Libraries}
use foundora_ai.Memory.Session.{publish}
use foundora_ai.Memory.Accept.{
  is_active, is_automatic, is_duplicate, accepted_record, merged_record,
}
use foundora_ai.Memory.Accept.Written.{
  publish-Unchanged, announce-Unchanged, Accepted, accept_locked-Accepted,
}
use foundora_ai.Memory.Propose.{
  NewMemory, accept_if_automatic, insert_proposal, proposal_request, propose,
}
use foundora_ai.Memory.Decide.{
  settle_proposal, reject, with_reason, is_pending, invalidated_record, write_invalidation,
}
use foundora_ai.Memory.Constraints.Kept.{check_arguments-Unchanged}
use foundora_ai.Memory.Runs.{Decision-of_decide, Invalidation-of_invalidate, Proposal-of_propose}
use foundora_ai.Memory.Histories.{IsKept}
use foundora_ai.Memory.Lasting.{update_policy_keeps, no_less}

was_active : (b c : Bool) → (not b || c) ≡ false → b ≡ true
was_active b c h = ground arith

module _ (id business_id : Uuid) where
  -- The record of the id is the business's, and no longer active.
  abbrev pub IsInvalidated : MemoryStore → Type 0
  IsInvalidated s =
      IsClosed (λ (r : MemoryRecord). r.id) (λ r. is_active r.status)
        (λ r. r.id == id && r.business_id == business_id) id s.records s.outbox.next_uuid

  other_id : (k b : Uuid) → ¬ (k ≡ id) → (k == id && b == business_id) ≡ false
  other_id k b n = ground arith

  quiet :
      (s s' : MemoryStore)
      → s'.records ≡ s.records
      → s.outbox.next_uuid ≤ s'.outbox.next_uuid
      → IsInvalidated s
      → IsInvalidated s'
  quiet s s' e le c =
      IsClosed-later _ _ _ _ s.records s'.records s.outbox.next_uuid s'.outbox.next_uuid e le c

  -- A write over an active record.
  written :
      (q : MemoryRecord → Bool) (s s' : MemoryStore) (r x : MemoryRecord)
      → find q s.records ≡ some r
      → is_active r.status ≡ true
      → x.id ≡ r.id
      → s'.records ≡ put (λ y. y.id == x.id) x s.records
      → s.outbox.next_uuid ≤ s'.outbox.next_uuid
      → IsInvalidated s
      → IsInvalidated s'
  written q s s' r x found live same e le c =
      let n =
        apart (λ (y : MemoryRecord). y.id) (λ y. is_active y.status)
          (λ y. y.id == id && y.business_id == business_id) id q s.records s.outbox.next_uuid r c
          found live in
      let m : ¬ (x.id ≡ id) = λ eq. n (sym same ∙ eq) in
      IsClosed-put _ _ _ _ s.records s'.records x s.outbox.next_uuid s'.outbox.next_uuid e m
        (other_id x.id x.business_id m) le c

  accepted :
      (p : MemoryProposal) (route : Route) (context : AuthContext) (s s' : MemoryStore)
      (x : MemoryProposal)
      → Accepted p route context s s' x
      → IsInvalidated s
      → IsInvalidated s'
  unfolding accepted_record merged_record is_duplicate
  accepted p route context s s' x a c = elim a.records [
    | inl (k, entry, new, rows) ↦
        let old = c.old in
        let named : a.entry.id ≡ k = ap (λ (y : MemoryRecord). y.id) entry in
        IsClosed-insert _ _ _ _ s.records s'.records a.entry s.outbox.next_uuid s'.outbox.next_uuid
          rows (λ e. omega (arith, named)) a.later c
    | inr (r, found, entry, rows) ↦
        let hit = find_sound (is_duplicate p a.at) s.records r found in
        let live : is_active r.status ≡ true = ground arith in
        written (is_duplicate p a.at) s s' r a.entry found live
          (ap (λ (y : MemoryRecord). y.id) entry) rows a.later c
  ]

  inserted :
      (lib : Libraries) (consumers : List EventConsumer) (context : AuthContext)
      (p : MemoryProposal) (s s' : MemoryStore) (x : MemoryProposal)
      → IsInvalidated s
      → insert_proposal lib consumers context p s ≡ ok (x, s')
      → IsInvalidated s'
  unfolding insert_proposal accept_if_automatic
  inserted lib consumers context p s s' x c h =
      let s0 : MemoryStore = record s { proposals = s.proposals ++ p ∷ [] } in
      elim (Result-cases (publish lib consumers (proposal_request lib p) s0)) [
        | inr (e, bad) ↦ absurd (ground arith)
        | inl ((u, s1), good) ↦
            let same = publish-Unchanged lib consumers (proposal_request lib p) s0 s1 good in
            let c1 = quiet s s1 same.records same.later c in
            elim (Bool-cases (is_automatic p.acceptance_route)) [
              | inr f ↦
                  let (result, state) = ok-injective (pure p s1) refl (rw f at (rw good at h)) in
                  subst IsInvalidated state c1
              | inl t ↦
                  accepted p automatic context s1 s' x
                    (accept_locked-Accepted lib consumers context p automatic s1 s' x
                      (rw t at (rw good at h)))
                    c1
            ]
      ]

  proposed :
      (lib : Libraries) (consumers : List EventConsumer) (context : AuthContext) (n : NewMemory)
      (s s' : MemoryStore) (x : MemoryProposal)
      → IsInvalidated s
      → propose lib consumers context n s ≡ ok (x, s')
      → IsInvalidated s'
  proposed lib consumers context n s s' x c h =
      let d = Proposal-of_propose lib consumers context n s s' x h in
      let v = check_arguments-Unchanged lib n d.checked s d.middle d.arguments in
      let c1 = quiet s d.middle v.records v.later c in
      let drawn : d.middle.outbox.next_uuid ≤ d.state.outbox.next_uuid =
        subst (λ (w : MemoryStore). d.middle.outbox.next_uuid ≤ w.outbox.next_uuid) (sym d.state_is)
          (omega arith) in
      let c2 : IsInvalidated d.state =
        quiet d.middle d.state (ap (λ (w : MemoryStore). w.records) d.state_is) drawn c1 in
      inserted lib consumers context _ d.state s' x c2 d.inserted

  settled :
      (lib : Libraries) (consumers : List EventConsumer) (context : AuthContext)
      (p : MemoryProposal) (expected : ℕ) (accept : Bool) (reason : String) (s s' : MemoryStore)
      (x : MemoryProposal)
      → IsInvalidated s
      → settle_proposal lib consumers context p expected accept reason s ≡ ok (x, s')
      → IsInvalidated s'
  unfolding settle_proposal reject
  settled lib consumers context p expected true reason s s' x c h =
      elim (Bool-cases (not (is_pending p.status) || p.revision != expected)) [
        | inl t ↦ absurd (ground arith)
        | inr f ↦
            accepted (with_reason p reason) founder context s s' x
              (accept_locked-Accepted lib consumers context (with_reason p reason) founder s s' x
                (rw f at h))
              c
      ]
  settled lib consumers context p expected false reason s s' x c h =
      elim (Bool-cases (not (is_pending p.status) || p.revision != expected)) [
        | inl t ↦ absurd (ground arith)
        | inr f ↦
            let (result, state) = ok-injective (reject context p reason s) refl (rw f at h) in
            subst IsInvalidated state c
      ]

  pub IsInvalidated-IsKept :
      (lib : Libraries) (consumers : List EventConsumer) → IsKept lib consumers IsInvalidated
  unfolding write_invalidation invalidated_record
  IsInvalidated-IsKept lib consumers = record {
    over_policy = λ context types minimum expected s s' x c h.
        let k = update_policy_keeps context types minimum expected s s' x h in
        quiet s s' k.1 (no_less s s' k.2) c;
    over_proposal = proposed lib consumers;
    over_decision = λ context other expected accept reason s s' x c h.
        let d = Decision-of_decide lib consumers context other expected accept reason s s' x h in
        settled lib consumers context d.proposal expected accept d.normalized s s' x c d.settled;
    over_invalidation = λ context other expected reason s s' x c h.
        let d = Invalidation-of_invalidate lib consumers context other expected reason s s' x h in
        let (result, u) = announce-Unchanged lib consumers _ _ x _ s' d.written in
        written _ s s' d.entry (invalidated_record d.entry d.normalized (s.clock s.ticks)) d.found
          (was_active _ _ d.current) refl u.records u.later c;
  }
