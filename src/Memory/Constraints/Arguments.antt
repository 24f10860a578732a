-- ===== src/Memory/Constraints/Arguments.antt =====
-- What the checks of the arguments and of the source give for the row of a proposal.
use foundora_ai.Base.{
  ◌≡◌, sym, subst, eq-of_beq, String, Bool, true, false, ◌&&◌, ◌||◌, not, ◌==◌, string_eq, contains,
  Option, none, some, ◌∷◌, ok, arith, Uuid, Datetime, inl, inr, Bool-cases, Option-cases,
}
use foundora_ai.Business.{is_none}
use foundora_ai.Memory.Model.{MemoryStore}
use foundora_ai.Memory.Text.{
  Libraries, Moment, naive, aware, validate_type, epistemic_of_type, check_scope, normalize_expiry,
  is_execution_type, verifiable_source_kinds,
}
use foundora_ai.Memory.Sources.{
  SourceArguments, ResolvedSource, founder_source, chunk_source, cited_source, Citation,
  entity_source, system_source, resolve_source, find_citation,
}
use foundora_ai.Memory.Constraints.{is_valid_pair, is_scoped, is_source_kind, is_identified}

pub validate_type-is_valid_pair :
    (memory_type epistemic_status : String)
    → validate_type memory_type epistemic_status ≡ ok tt
    → is_valid_pair memory_type epistemic_status ≡ true
unfolding validate_type epistemic_of_type is_valid_pair
validate_type-is_valid_pair memory_type epistemic_status h = ground arith

pub check_scope-is_scoped :
    (memory_type : String) (at : Option Datetime) (execution_type : Option String)
    (execution_id : Option Uuid) (now : Datetime) (expires_at : Option Datetime)
    → check_scope memory_type at execution_type execution_id now ≡ ok expires_at
    → (is_scoped memory_type execution_type execution_id expires_at ≡ true)
      × ((is_none execution_type || is_execution_type execution_type) ≡ true)
unfolding check_scope is_scoped is_execution_type
check_scope-is_scoped memory_type at execution_type execution_id now expires_at h = ground arith

pub normalize_expiry-is_scoped :
    (memory_type : String) (at : Option Moment) (execution_type : Option String)
    (execution_id : Option Uuid) (now : Datetime) (expires_at : Option Datetime)
    → normalize_expiry memory_type at execution_type execution_id now ≡ ok expires_at
    → (is_scoped memory_type execution_type execution_id expires_at ≡ true)
      × ((is_none execution_type || is_execution_type execution_type) ≡ true)
unfolding normalize_expiry
normalize_expiry-is_scoped memory_type none execution_type execution_id now expires_at h =
    check_scope-is_scoped memory_type none execution_type execution_id now expires_at h
normalize_expiry-is_scoped memory_type (some (naive t)) execution_type execution_id now expires_at
      h =
    absurd (ground arith)
normalize_expiry-is_scoped memory_type (some (aware t)) execution_type execution_id now expires_at
      h =
    check_scope-is_scoped memory_type (some t) execution_type execution_id now expires_at
      (ground arith)

record Sourced (kind : String) (r : ResolvedSource) : Type 0 where
  same_kind : r.kind ≡ kind
  identity : is_none r.source_id ≡ (kind == "founder_input")

founder_source-Sourced :
    (lib : Libraries) (a : SourceArguments) (r : ResolvedSource)
    → (a.source_kind == "founder_input") ≡ true
    → founder_source lib a ≡ ok r
    → Sourced a.source_kind r
unfolding founder_source
founder_source-Sourced lib a r k h = record { same_kind = ground arith; identity = ground arith }

entity_source-Sourced :
    (lib : Libraries) (s : MemoryStore) (business_id : Uuid) (kind : String) (id : Uuid)
    (r : ResolvedSource)
    → (kind == "founder_input") ≡ false
    → entity_source lib s business_id kind id ≡ ok r
    → Sourced kind r
unfolding entity_source
entity_source-Sourced lib s business_id kind id r k h = record {
  same_kind = ground arith;
  identity = ground arith;
}

chunk_source-Sourced :
    (lib : Libraries) (c : Option Citation) (r : ResolvedSource)
    → chunk_source lib c ≡ ok r
    → Sourced "knowledge_chunk" r
unfolding chunk_source cited_source
chunk_source-Sourced lib none r h = absurd (ground arith)
chunk_source-Sourced lib (some c) r h = record { same_kind = ground arith; identity = ground arith }

Sourced-of_kind :
    (k kind : String) (r : ResolvedSource) → (kind == k) ≡ true → Sourced k r → Sourced kind r
Sourced-of_kind k kind r e h = subst (λ x. Sourced x r) (sym (eq-of_beq kind k e)) h

system_source-Sourced :
    (lib : Libraries) (s : MemoryStore) (business_id : Uuid) (kind : String)
    (source_id : Option String) (r : ResolvedSource)
    → (kind == "founder_input") ≡ false
    → system_source lib s business_id kind source_id ≡ ok r
    → Sourced kind r
unfolding system_source
system_source-Sourced lib s business_id kind none r k h = absurd (ground arith)
system_source-Sourced lib s business_id kind (some i) r k h =
    elim (Option-cases (lib.uuid_of_text i)) [
      | inl unknown ↦ absurd (ground arith)
      | inr (id, known) ↦ elim (Bool-cases (kind == "knowledge_chunk")) [
        | inl t ↦
            Sourced-of_kind "knowledge_chunk" kind r t
              (chunk_source-Sourced lib (find_citation s business_id id) r (ground arith))
        | inr f ↦ entity_source-Sourced lib s business_id kind id r k (ground arith)
      ]
    ]

resolve_source-Sourced :
    (lib : Libraries) (s : MemoryStore) (business_id : Uuid) (a : SourceArguments)
    (r : ResolvedSource)
    → resolve_source lib s business_id a ≡ ok r
    → (is_source_kind a.source_kind ≡ true) × Sourced a.source_kind r
unfolding resolve_source is_source_kind verifiable_source_kinds
resolve_source-Sourced lib s business_id a r h =
    elim (Bool-cases (contains ("founder_input" ∷ verifiable_source_kinds) a.source_kind)) [
      | inr f ↦ absurd (ground arith)
      | inl member ↦ elim (Bool-cases (a.source_kind == "founder_input")) [
        | inl t ↦ (member, founder_source-Sourced lib a r t (rw (member, t) at h))
        | inr f ↦ (
          member,
          system_source-Sourced lib s business_id a.source_kind a.source_id r f
              (rw (member, f) at h),
        )
      ]
    ]

pub resolve_source-is_identified :
    (lib : Libraries) (s : MemoryStore) (business_id : Uuid) (a : SourceArguments)
    (r : ResolvedSource)
    → resolve_source lib s business_id a ≡ ok r
    → (is_source_kind r.kind ≡ true) × (is_identified r.kind r.source_id ≡ true)
unfolding is_identified
resolve_source-is_identified lib s business_id a r h =
    let (member, sourced) = resolve_source-Sourced lib s business_id a r h in
    let kind = sourced.same_kind in
    let identity = sourced.identity in
    (
      subst (λ k. is_source_kind k ≡ true) (sym kind) member,
      subst
          (λ k.
            ((k == "founder_input" && is_none r.source_id)
              || (not (k == "founder_input") && not (is_none r.source_id)))
            ≡ true)
          (sym kind) (one_of (a.source_kind == "founder_input") (is_none r.source_id) identity),
    )
  where
    one_of : (b c : Bool) → c ≡ b → ((b && c) || (not b && not c)) ≡ true
    one_of b c e = ground arith
