-- ===== src/Memory/Sources.antt =====
-- `_resolve_entity` and `_resolve_source` of memory/service.py, which read the tables that a memory may
-- refer to.
use foundora_ai.Base.{
  String, Bool, false, ◌&&◌, not, Option, none, some, [], ◌∷◌, Result, ok, err, ◌==◌, nat_eq,
  string_eq, if◌then◌else◌, find, ltb, contains, Uuid, Details, text, number, is_empty, text_length,
  strip, text_take,
}
use Prim.Native.String.{◌++◌ as ◌+++◌}
use foundora_ai.Base.Fallible.{◌>>=◌, ◌>>◌, raise_if}
use foundora_ai.Business.{is_none}
use foundora_ai.Tasks.Model.{Task, status_text}
use foundora_ai.Memory.Model.{
  MemoryStore, MemoryError, AgentRun, WorkflowRun, KnowledgeSource, KnowledgeDocument,
  DocumentChunk, entity_unavailable, unsupported_source, founder_with_id, excerpt_too_long,
  missing_source_id, source_id_invalid, citation_unavailable,
}
use foundora_ai.Memory.Text.{
  Libraries, clean, json_metadata, manual_uri, reject_secrets, verifiable_source_kinds,
}

-- What `_resolve_entity` returns.
pub record Entity : Type 0 where
  pub label : String
  pub uri : String
  pub metadata : Details

unfoldable pub task_entity : Libraries → Task → Entity
task_entity lib t = record {
  label = "Task: " +++ t.title;
  uri = "foundora://tasks/" +++ lib.external.uuid_text t.id;
  metadata = ("status", text (status_text t.status)) ∷ [];
}

unfoldable pub agent_run_entity : Libraries → AgentRun → Entity
agent_run_entity lib r = record {
  label = "Agent run: " +++ r.agent_id;
  uri = "foundora://agent-runs/" +++ lib.external.uuid_text r.id;
  metadata = ("status", text r.status) ∷ [];
}

unfoldable pub workflow_run_entity : Libraries → WorkflowRun → Entity
workflow_run_entity lib r = record {
  label = "Workflow run: " +++ r.workflow_id;
  uri = "foundora://workflow-runs/" +++ lib.external.uuid_text r.id;
  metadata = ("status", text r.status) ∷ [];
}

abbrev or_unavailable {ℓ} :
    {A : Type ℓ} → String → (A → Entity) → Option A → Result MemoryError Entity
or_unavailable kind entity none = err (entity_unavailable kind)
or_unavailable kind entity (some row) = ok (entity row)

-- `_resolve_entity`
unfoldable pub resolve_entity :
    Libraries → MemoryStore → Uuid → String → Uuid → Result MemoryError Entity
resolve_entity lib s business_id kind entity_id =
    if kind == "task"
    then or_unavailable kind (task_entity lib)
        (find (λ t. t.id == entity_id && t.business_id == business_id) s.tasks)
    else if kind == "agent_run"
    then or_unavailable kind (agent_run_entity lib)
        (find (λ t. t.id == entity_id && t.business_id == business_id) s.agent_runs)
    else if kind == "workflow_run"
    then or_unavailable kind (workflow_run_entity lib)
        (find (λ t. t.id == entity_id && t.business_id == business_id) s.workflow_runs)
    else err (entity_unavailable kind)

pub record ResolvedSource : Type 0 where
  pub kind : String
  pub source_id : Option String
  pub uri : Option String
  pub label : String
  pub excerpt : Option String
  pub metadata : Details

-- The arguments of `_resolve_source` behind the business.
pub record SourceArguments : Type 0 where
  pub source_kind : String
  pub source_id : Option String
  pub source_uri : Option String
  pub source_label : String
  pub source_excerpt : Option String
  pub source_metadata : Details

-- `source_excerpt.strip() if source_excerpt else None`
unfoldable pub stripped : Option String → Option String
stripped none = none
stripped (some e) = if is_empty e then none else some (strip e)

abbrev longer_than_1000 : Option String → Bool
longer_than_1000 none = false
longer_than_1000 (some e) = ltb 1000 (text_length e)

-- `if source_kind == "founder_input"`
unfoldable pub founder_source : Libraries → SourceArguments → Result MemoryError ResolvedSource
founder_source lib a = do
  raise_if (not (is_none a.source_id)) founder_with_id
  label ← clean a.source_label 200 "Source label"
  let excerpt = stripped a.source_excerpt
  raise_if (longer_than_1000 excerpt) excerpt_too_long
  metadata ← json_metadata lib a.source_metadata
  uri ← manual_uri lib a.source_uri
  reject_secrets lib (some label ∷ excerpt ∷ [])
  ok (record {
    kind = a.source_kind;
    source_id = none;
    uri = uri;
    label = label;
    excerpt = excerpt;
    metadata = metadata;
  })

-- A row of the join of a chunk with its document and its source.
pub record Citation : Type 0 where
  pub chunk : DocumentChunk
  pub document : KnowledgeDocument
  pub source : KnowledgeSource

abbrev join_source : DocumentChunk → KnowledgeDocument → Option KnowledgeSource → Option Citation
join_source c d none = none
join_source c d (some s) = some (record { chunk = c; document = d; source = s })

abbrev join_document : MemoryStore → DocumentChunk → Option KnowledgeDocument → Option Citation
join_document s c none = none
join_document s c (some d) =
    join_source c d (find (λ x. x.id == c.source_id && x.status == "active") s.sources)

-- The query of the citation. The ids are primary keys.
unfoldable pub find_citation : MemoryStore → Uuid → Uuid → Option Citation
find_citation s business_id chunk_id =
    elim (find (λ c. c.id == chunk_id && c.business_id == business_id) s.chunks) [
      | none ↦ none
      | some c ↦
          join_document s c (find (λ d. d.id == c.document_id && d.status == "indexed") s.documents)
    ]

-- `source.source_uri or f"foundora://knowledge/chunks/{chunk.id}"`
abbrev or_chunk_uri : Libraries → Uuid → Option String → String
or_chunk_uri lib id none = "foundora://knowledge/chunks/" +++ lib.external.uuid_text id
or_chunk_uri lib id (some uri) =
    if is_empty uri then "foundora://knowledge/chunks/" +++ lib.external.uuid_text id else uri

unfoldable pub cited_source : Libraries → Citation → ResolvedSource
cited_source lib c = record {
  kind = "knowledge_chunk";
  source_id = some (lib.external.uuid_text c.chunk.id);
  uri = some (or_chunk_uri lib c.chunk.id c.source.source_uri);
  label = c.source.title +++ " — " +++ c.document.filename;
  excerpt = some (text_take 1000 c.chunk.content);
  metadata =
      ("source_id", text (lib.external.uuid_text c.source.id))
      ∷ ("document_id", text (lib.external.uuid_text c.document.id))
      ∷ ("document_sha256", text c.document.content_sha256)
      ∷ ("chunk_ordinal", number c.chunk.ordinal)
      ∷ ("chunk_sha256", text c.chunk.content_sha256)
      ∷ [];
}

-- `if source_kind == "knowledge_chunk"`
unfoldable pub chunk_source : Libraries → Option Citation → Result MemoryError ResolvedSource
chunk_source lib none = err citation_unavailable
chunk_source lib (some c) =
    let r = cited_source lib c in
    do
      reject_secrets lib (r.uri ∷ some r.label ∷ r.excerpt ∷ some (lib.dumps r.metadata) ∷ [])
      ok r

-- The end of `_resolve_source`.
unfoldable pub entity_source :
    Libraries → MemoryStore → Uuid → String → Uuid → Result MemoryError ResolvedSource
entity_source lib s business_id kind entity_id = do
  e ← resolve_entity lib s business_id kind entity_id
  reject_secrets lib (some e.uri ∷ some e.label ∷ some (lib.dumps e.metadata) ∷ [])
  ok (record {
    kind = kind;
    source_id = some (lib.external.uuid_text entity_id);
    uri = some e.uri;
    label = e.label;
    excerpt = none;
    metadata = e.metadata;
  })

-- From the test of the source's id on.
unfoldable pub system_source :
    Libraries → MemoryStore → Uuid → String → Option String → Result MemoryError ResolvedSource
system_source lib s business_id kind none = err missing_source_id
system_source lib s business_id kind (some source_id) = elim (lib.uuid_of_text source_id) [
  | none ↦ err source_id_invalid
  | some entity_id ↦
      if kind == "knowledge_chunk"
      then chunk_source lib (find_citation s business_id entity_id)
      else entity_source lib s business_id kind entity_id
]

-- `_resolve_source`
unfoldable pub resolve_source :
    Libraries → MemoryStore → Uuid → SourceArguments → Result MemoryError ResolvedSource
resolve_source lib s business_id a =
    if not (contains ("founder_input" ∷ verifiable_source_kinds) a.source_kind)
    then err unsupported_source
    else if a.source_kind == "founder_input"
    then founder_source lib a
    else system_source lib s business_id a.source_kind a.source_id
