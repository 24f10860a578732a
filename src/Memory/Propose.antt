-- ===== src/Memory/Propose.antt =====
-- `propose` of memory/service.py.
use foundora_ai.Base.{
  String, ◌&&◌, Option, none, some, List, [], ◌∷◌, ◌++◌, ok, pure, raise_if, ◌>>=◌, ◌>>◌, gets,
  modify, continue, ◌==◌, ◌!=◌, string_eq, if◌then◌else◌, contains, Uuid, Datetime, text,
}
use Prim.Native.String.{◌++◌ as ◌+++◌}
use foundora_ai.Business.{AuthContext}
use foundora_ai.Events.Contracts.{EventConsumer}
use foundora_ai.Events.Publish.{Request}
use foundora_ai.Memory.Model.{
  MemoryPolicy, MemoryProposal, Confidence, out_of_range, at_most, Route, founder, automatic,
  pending, confidence_range,
}
use foundora_ai.Memory.Text.{
  Libraries, Moment, clean, clean_content, reject_secrets, canonical_key, validate_type,
  normalize_expiry, automatic_eligible_types, verifiable_source_kinds,
}
use foundora_ai.Memory.Session.{Work, now, new_uuid, lift, selected_business, publish}
use foundora_ai.Memory.Sources.{ResolvedSource, SourceArguments, resolve_entity, resolve_source}
use foundora_ai.Memory.Policy.{policy_for}
use foundora_ai.Memory.Accept.{accept_locked, route_text, is_automatic}

-- The arguments of `propose`.
pub record NewMemory : Type 0 where
  pub memory_type : String
  pub epistemic_status : String
  pub title : String
  pub content : String
  pub confidence : Confidence
  pub execution_type : Option String
  pub execution_id : Option Uuid
  pub expires_at : Option Moment
  pub source : SourceArguments

-- The checked arguments.
pub record Checked : Type 0 where
  pub at : Datetime
  pub title : String
  pub content : String
  pub expires_at : Option Datetime

unfoldable pub check_arguments : Libraries → NewMemory → Work Checked
check_arguments lib n = do
  lift (validate_type n.memory_type n.epistemic_status)
  raise_if (out_of_range n.confidence) confidence_range
  title ← lift (clean n.title 200 "Memory title")
  content ← lift (clean_content n.content)
  lift (reject_secrets lib (some title ∷ some content ∷ n.source.source_excerpt ∷ []))
  at ← now
  expires_at ← lift (normalize_expiry n.memory_type n.expires_at n.execution_type n.execution_id at)
  pure (record { at = at; title = title; content = content; expires_at = expires_at })

abbrev or_blank : Option String → String
or_blank none = ""
or_blank (some t) = t

abbrev or_zero : Option Uuid → Uuid
or_zero none = 0
or_zero (some id) = id

-- `if memory_type == "working"`
unfoldable pub check_execution : Libraries → Uuid → NewMemory → Work (Unit {0})
check_execution lib business_id n s =
    if n.memory_type == "working"
    then continue
        (lift
          (resolve_entity lib s business_id (or_blank n.execution_type) (or_zero n.execution_id)) s)
        (λ _. pure tt)
    else ok (tt, s)

-- `automatic = bool(policy and ...)`
unfoldable pub route_by : Option MemoryPolicy → NewMemory → ResolvedSource → Route
route_by none n source = founder
route_by (some policy) n source =
    if contains policy.automatic_accept_types n.memory_type
      && (contains automatic_eligible_types n.memory_type
          && (at_most policy.minimum_confidence n.confidence
              && (contains verifiable_source_kinds source.kind && n.epistemic_status != "fact")))
    then automatic
    else founder

unfoldable pub new_proposal :
    Libraries
    → Uuid
    → AuthContext
    → NewMemory
    → Checked
    → ResolvedSource
    → Route
    → Uuid
    → MemoryProposal
new_proposal lib business_id context n c source route id = record {
  id = id;
  business_id = business_id;
  memory_type = n.memory_type;
  epistemic_status = n.epistemic_status;
  title = c.title;
  content = c.content;
  confidence = n.confidence;
  status = pending;
  acceptance_route = route;
  canonical_key = canonical_key lib n.memory_type n.epistemic_status c.title c.content;
  execution_type = n.execution_type;
  execution_id = n.execution_id;
  expires_at = c.expires_at;
  source_kind = source.kind;
  source_id = source.source_id;
  source_uri = source.uri;
  source_label = source.label;
  source_excerpt = source.excerpt;
  source_metadata = source.metadata;
  requested_by_owner_id = context.owner_id;
  decided_by_owner_id = none;
  resolution_memory_id = none;
  decision_reason = none;
  revision = 1;
  created_at = c.at;
  updated_at = c.at;
  decided_at = none;
}

unfoldable pub proposal_request : Libraries → MemoryProposal → Request
proposal_request lib p = record {
  business_id = p.business_id;
  event_type = "memory.proposed";
  aggregate_type = "memory_proposal";
  aggregate_id = lib.external.uuid_text p.id;
  idempotency_key = "memory-proposal:" +++ lib.external.uuid_text p.id +++ ":proposed";
  payload =
      ("proposal_id", text (lib.external.uuid_text p.id))
      ∷ ("memory_type", text p.memory_type)
      ∷ ("epistemic_status", text p.epistemic_status)
      ∷ ("acceptance_route", text (route_text p.acceptance_route))
      ∷ [];
  schema_version = 1;
  causation_event_id = none;
  occurred_at = none;
  correlation = lib.external.correlation;
}

-- `if automatic: ...`
unfoldable pub accept_if_automatic :
    Libraries → List EventConsumer → AuthContext → MemoryProposal → Work MemoryProposal
accept_if_automatic lib consumers context p s =
    if is_automatic p.acceptance_route
    then accept_locked lib consumers context p automatic s
    else ok (p, s)

-- From `database.add(proposal)` on.
unfoldable pub insert_proposal :
    Libraries → List EventConsumer → AuthContext → MemoryProposal → Work MemoryProposal
insert_proposal lib consumers context p = do
  modify (λ s. record s { proposals = s.proposals ++ p ∷ [] })
  publish lib consumers (proposal_request lib p)
  accept_if_automatic lib consumers context p

unfoldable pub propose :
    Libraries → List EventConsumer → AuthContext → NewMemory → Work MemoryProposal
propose lib consumers context n = do
  c ← check_arguments lib n
  business ← selected_business context
  check_execution lib business.id n
  store ← gets (λ s. s)
  source ← lift (resolve_source lib store business.id n.source)
  id ← new_uuid
  let route = route_by (policy_for business.id store.policies) n source
  insert_proposal lib consumers context (new_proposal lib business.id context n c source route id)
