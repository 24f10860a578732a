-- ===== src/Memory/Examples.antt =====
-- The memory system on a concrete store: a business with two tasks, proposals for the working memory of
-- each, and their retrieval.
use foundora_ai.Base.{
  Distinct, ◌<◌, arith, find, ◌&&◌, ◌==◌, nat_eq, ◌+◌, ◌≤◌, ◌≡◌, ◌≢◌, ◌⊎◌, refl, String, true,
  false, none, some, List, [], ◌∷◌, Result, ok, err, Uuid, length, All, Sorted, is_empty,
  text_length, words, strip, rstrip, lstrip, join, append, is_space, decimal, digits_before,
  unix_lines, replace_cr, replace_crlf, take, sort_by, insert_by, text,
}
use foundora_ai.Business.Samples.{session_of}
use foundora_ai.Business.{AuthContext, Business, resolve_selected_business}
use foundora_ai.Events.Contracts.{
  EventConsumer, event_contracts, find_contract, check_contract, validate_event, consumers_for,
}
use foundora_ai.Events.Publish.{
  publish_event, publish_to, is_same_key, insert_event, new_event, add_deliveries, new_delivery,
}
use foundora_ai.Tasks.Model.{Task, running}
use foundora_ai.Memory.Model.{
  units, MemoryStore, MemoryError, MemoryProposal, MemoryRecord, MemoryPolicy, pending, founder,
  ProposalStatus, invalidated, proposal_changed, memory_changed,
}
use foundora_ai.Memory.Text.{
  Libraries, aware, clean, clean_content, has_secret, reject_secrets, check_reason, canonical_key,
  epistemic_of_type, validate_type, execution_types, is_execution_type, check_scope,
  normalize_expiry, automatic_eligible_types, verifiable_source_kinds, secret_patterns,
}
use foundora_ai.Memory.Text.Clean.{clean_again}
use foundora_ai.Memory.Session.{selected_business, publish, announce}
use foundora_ai.Memory.Sources.{
  task_entity, resolve_entity, entity_source, system_source, resolve_source,
}
use foundora_ai.Memory.Policy.{
  insert_text, sorted_set, new_policy, insert_policy, save_policy, policy_for, update_policy,
}
use foundora_ai.Memory.Accept.{
  is_duplicate, accepted_record, merged_record, new_revision, new_provenance, resolved_proposal,
  acceptance_request, record_change, insert_record, accept_into, accept_locked,
}
use foundora_ai.Memory.Propose.{
  NewMemory, check_arguments, check_execution, route_by, new_proposal, proposal_request,
  accept_if_automatic, insert_proposal, propose,
}
use foundora_ai.Memory.Decide.{
  settle_proposal, find_proposal, decide_proposal, with_reason, invalidated_record,
  invalidation_request, write_invalidation, find_record, invalidate, is_pending,
}
use foundora_ai.Memory.Retrieve.{
  Filter, is_one_of, matches_query, in_scope, is_retrieved, ranks_before, retrieve_memories,
}
use foundora_ai.Memory.Retrieve.Visible.{IsVisible, retrieve_memories-IsVisible}
use foundora_ai.Memory.Decided.{decide_proposal_once}
use foundora_ai.Memory.Outcome.{Permitted, propose_automatic}
use foundora_ai.Memory.Invalidated.{invalidate_once}
use foundora_ai.Memory.Histories.{here, by_policy, by_proposal, by_invalidation}
use foundora_ai.Memory.Audit.{Logged, decide_proposal-Logged}
use foundora_ai.Memory.Constraints.Kept.{IsWellFormed}
use foundora_ai.Memory.Constraints.Reach.{memory-IsWellFormed}

abbrev lib : Libraries
lib = record {
  external = record {
    uuid_text = decimal;
    payload_valid = λ _ _. true;
    truncate = λ _ t. t;
    json_size = λ _. 2;
    correlation = "-";
  };
  search = λ _ _ _. false;
  casefold = λ t. t;
  casefold_nfkc = λ t. t;
  sha256 = λ t. t;
  dumps_compact = λ _. some "{}";
  dumps = λ _. "{}";
  urlsplit = λ _. none;
  parse_qsl = λ _. [];
  uuid_of_text = λ _. some 20;
  ilike = λ _ _. true;
}

abbrev consumers : List EventConsumer
consumers =
    record {
      name = "audit";
      event_types =
          "memory.proposed" ∷ "memory.accepted" ∷ "memory.merged" ∷ "memory.invalidated" ∷ [];
      max_attempts = 5;
      timeout_seconds = 5;
    }
    ∷ []

abbrev task : Uuid → Task
task id = record {
  id = id;
  business_id = 1;
  goal_id = none;
  title = "Write";
  description = none;
  priority = 3;
  owner_type = "founder";
  owner_agent_id = none;
  owner_agent_version_id = none;
  status = running;
  due_at = none;
  max_retries = 2;
  retry_count = 0;
  last_error = none;
  created_by_owner_id = 9;
  created_at = 10;
  updated_at = 10;
}

abbrev shop : Business
shop = record { id = 1; owner_id = 9; name = "Shop"; archived_at = none }

abbrev owner : AuthContext
owner = record { owner_id = 9; session_id = 7 }

abbrev start : MemoryStore
start = record {
  directory = record { sessions = session_of 7 9 (some 1) ∷ []; businesses = shop ∷ [] };
  tasks = task 20 ∷ task 21 ∷ [];
  agent_runs = [];
  workflow_runs = [];
  sources = [];
  documents = [];
  chunks = [];
  policies = [];
  proposals = [];
  records = [];
  revisions = [];
  provenance = [];
  outbox = record { events = []; deliveries = []; next_uuid = 30 };
  clock = λ k. 100 + k;
  ticks = 0;
}

-- Working memory for the task `id`, from the task itself.
abbrev note : Uuid → NewMemory
note id = record {
  memory_type = "working";
  epistemic_status = "observation";
  title = " Draft  one ";
  content = "Half done";
  confidence = units 900000;
  execution_type = some "task";
  execution_id = some id;
  expires_at = some (aware 5000);
  source = record {
    source_kind = "task";
    source_id = some "20";
    source_uri = none;
    source_label = "Task";
    source_excerpt = none;
    source_metadata = [];
  };
}

abbrev state_of : {A : Type 0} → Result MemoryError (A × MemoryStore) → MemoryStore
state_of (ok (t, s)) = s
state_of (err e) = start

abbrev proposed : Result MemoryError (MemoryProposal × MemoryStore)
proposed = propose lib consumers owner (note 20) start

abbrev first_proposal : MemoryProposal
first_proposal = record {
  id = 30;
  business_id = 1;
  memory_type = "working";
  epistemic_status = "observation";
  title = "Draft one";
  content = "Half done";
  confidence = units 900000;
  status = pending;
  acceptance_route = founder;
  canonical_key = "working\nobservation\nDraft one\nHalf done";
  execution_type = some "task";
  execution_id = some 20;
  expires_at = some 5000;
  source_kind = "task";
  source_id = some "20";
  source_uri = some "foundora://tasks/20";
  source_label = "Task: Write";
  source_excerpt = none;
  source_metadata = ("status", text "running") ∷ [];
  requested_by_owner_id = 9;
  decided_by_owner_id = none;
  resolution_memory_id = none;
  decision_reason = none;
  revision = 1;
  created_at = 100;
  updated_at = 100;
  decided_at = none;
}

proposed_ok : proposed ≡ ok (first_proposal, state_of proposed)
unfolding propose check_arguments validate_type epistemic_of_type clean strip rstrip lstrip is_space
    words join append clean_content unix_lines replace_cr replace_crlf reject_secrets has_secret
    secret_patterns normalize_expiry check_scope is_execution_type execution_types selected_business
    resolve_selected_business check_execution resolve_entity task_entity resolve_source
    verifiable_source_kinds system_source entity_source route_by policy_for new_proposal
    canonical_key insert_proposal proposal_request publish publish_event validate_event
    find_contract event_contracts check_contract consumers_for publish_to is_same_key insert_event
    new_event add_deliveries new_delivery accept_if_automatic decimal digits_before
proposed_ok = refl

-- A name for the result of a run.
abbrev result_of : {A : Type 0} → A → Result MemoryError (A × MemoryStore) → A
result_of a (ok (b, s)) = b
result_of a (err e) = a

abbrev accepted : Result MemoryError (MemoryProposal × MemoryStore)
accepted = decide_proposal lib consumers owner 30 1 true "Keep" (state_of proposed)

accepted_ok : accepted ≡ ok (result_of first_proposal accepted, state_of accepted)
unfolding propose check_arguments validate_type epistemic_of_type clean strip rstrip lstrip is_space
    words join append clean_content unix_lines replace_cr replace_crlf reject_secrets has_secret
    secret_patterns normalize_expiry check_scope is_execution_type execution_types selected_business
    resolve_selected_business check_execution resolve_entity task_entity resolve_source
    verifiable_source_kinds system_source entity_source route_by policy_for new_proposal
    canonical_key insert_proposal proposal_request publish publish_event validate_event
    find_contract event_contracts check_contract consumers_for publish_to is_same_key insert_event
    new_event add_deliveries new_delivery accept_if_automatic decimal digits_before decide_proposal
    check_reason find_proposal settle_proposal with_reason accept_locked is_duplicate accept_into
    accepted_record insert_record merged_record record_change new_revision new_provenance
    resolved_proposal acceptance_request announce update_policy sorted_set insert_text
    automatic_eligible_types save_policy new_policy insert_policy invalidate find_record
    write_invalidation invalidated_record invalidation_request
accepted_ok = refl

keep_is_clean : check_reason lib "Decision reason" "No" ≡ ok "No"
unfolding check_reason clean strip rstrip lstrip is_space words join append reject_secrets
    has_secret secret_patterns
keep_is_clean = refl

drop_is_clean : check_reason lib "Invalidation reason" "Old" ≡ ok "Old"
unfolding check_reason clean strip rstrip lstrip is_space words join append reject_secrets
    has_secret secret_patterns
drop_is_clean = refl

decide_proposal-Logged_example :
    (p : MemoryProposal) × (b : Uuid) × (find
        (λ y. y.id == 30 && y.business_id == b)
        (state_of proposed).proposals
      ≡ some p)
    × Logged p (state_of proposed) (state_of accepted) (result_of first_proposal accepted)
decide_proposal-Logged_example =
    decide_proposal-Logged lib consumers owner 30 1 "Keep" (state_of proposed) (state_of accepted)
      (result_of first_proposal accepted) accepted_ok

abbrev first_record : MemoryRecord
first_record = record {
  id = 34;
  business_id = 1;
  originating_proposal_id = 30;
  memory_type = "working";
  epistemic_status = "observation";
  title = "Draft one";
  content = "Half done";
  confidence = units 900000;
  status = invalidated;
  accepted_via = founder;
  canonical_key = "";
  execution_type = none;
  execution_id = none;
  expires_at = none;
  current_revision = 1;
  accepted_by_owner_id = none;
  created_at = 0;
  updated_at = 0;
  invalidated_at = none;
  invalidation_reason = none;
}

abbrev dropped : Result MemoryError (MemoryRecord × MemoryStore)
dropped = invalidate lib consumers owner 33 1 "Old" (state_of accepted)

dropped_ok : dropped ≡ ok (result_of first_record dropped, state_of dropped)
unfolding propose check_arguments validate_type epistemic_of_type clean strip rstrip lstrip is_space
    words join append clean_content unix_lines replace_cr replace_crlf reject_secrets has_secret
    secret_patterns normalize_expiry check_scope is_execution_type execution_types selected_business
    resolve_selected_business check_execution resolve_entity task_entity resolve_source
    verifiable_source_kinds system_source entity_source route_by policy_for new_proposal
    canonical_key insert_proposal proposal_request publish publish_event validate_event
    find_contract event_contracts check_contract consumers_for publish_to is_same_key insert_event
    new_event add_deliveries new_delivery accept_if_automatic decimal digits_before decide_proposal
    check_reason find_proposal settle_proposal with_reason accept_locked is_duplicate accept_into
    accepted_record insert_record merged_record record_change new_revision new_provenance
    resolved_proposal acceptance_request announce update_policy sorted_set insert_text
    automatic_eligible_types save_policy new_policy insert_policy invalidate find_record
    write_invalidation invalidated_record invalidation_request
dropped_ok = refl

proposed-Distinct : Distinct (λ (y : MemoryProposal). y.id) (state_of proposed).proposals
unfolding propose check_arguments validate_type epistemic_of_type clean strip rstrip lstrip is_space
    words join append clean_content unix_lines replace_cr replace_crlf reject_secrets has_secret
    secret_patterns normalize_expiry check_scope is_execution_type execution_types selected_business
    resolve_selected_business check_execution resolve_entity task_entity resolve_source
    verifiable_source_kinds system_source entity_source route_by policy_for new_proposal
    canonical_key insert_proposal proposal_request publish publish_event validate_event
    find_contract event_contracts check_contract consumers_for publish_to is_same_key insert_event
    new_event add_deliveries new_delivery accept_if_automatic decimal digits_before decide_proposal
    check_reason find_proposal settle_proposal with_reason accept_locked is_duplicate accept_into
    accepted_record insert_record merged_record record_change new_revision new_provenance
    resolved_proposal acceptance_request announce update_policy sorted_set insert_text
    automatic_eligible_types save_policy new_policy insert_policy invalidate find_record
    write_invalidation invalidated_record invalidation_request
proposed-Distinct = (tt, tt)

proposed_old :
    All
      (λ (y : MemoryProposal). y.id < (state_of proposed).outbox.next_uuid)
      (state_of proposed).proposals
unfolding propose check_arguments validate_type epistemic_of_type clean strip rstrip lstrip is_space
    words join append clean_content unix_lines replace_cr replace_crlf reject_secrets has_secret
    secret_patterns normalize_expiry check_scope is_execution_type execution_types selected_business
    resolve_selected_business check_execution resolve_entity task_entity resolve_source
    verifiable_source_kinds system_source entity_source route_by policy_for new_proposal
    canonical_key insert_proposal proposal_request publish publish_event validate_event
    find_contract event_contracts check_contract consumers_for publish_to is_same_key insert_event
    new_event add_deliveries new_delivery accept_if_automatic decimal digits_before decide_proposal
    check_reason find_proposal settle_proposal with_reason accept_locked is_duplicate accept_into
    accepted_record insert_record merged_record record_change new_revision new_provenance
    resolved_proposal acceptance_request announce update_policy sorted_set insert_text
    automatic_eligible_types save_policy new_policy insert_policy invalidate find_record
    write_invalidation invalidated_record invalidation_request
proposed_old = (omega arith, tt)

known_after : resolve_selected_business (state_of dropped).directory owner ≡ some shop
unfolding propose check_arguments validate_type epistemic_of_type clean strip rstrip lstrip is_space
    words join append clean_content unix_lines replace_cr replace_crlf reject_secrets has_secret
    secret_patterns normalize_expiry check_scope is_execution_type execution_types selected_business
    resolve_selected_business check_execution resolve_entity task_entity resolve_source
    verifiable_source_kinds system_source entity_source route_by policy_for new_proposal
    canonical_key insert_proposal proposal_request publish publish_event validate_event
    find_contract event_contracts check_contract consumers_for publish_to is_same_key insert_event
    new_event add_deliveries new_delivery accept_if_automatic decimal digits_before decide_proposal
    check_reason find_proposal settle_proposal with_reason accept_locked is_duplicate accept_into
    accepted_record insert_record merged_record record_change new_revision new_provenance
    resolved_proposal acceptance_request announce update_policy sorted_set insert_text
    automatic_eligible_types save_policy new_policy insert_policy invalidate find_record
    write_invalidation invalidated_record invalidation_request
known_after = refl

same_shop : shop.id ≡ (result_of first_proposal accepted).business_id
unfolding propose check_arguments validate_type epistemic_of_type clean strip rstrip lstrip is_space
    words join append clean_content unix_lines replace_cr replace_crlf reject_secrets has_secret
    secret_patterns normalize_expiry check_scope is_execution_type execution_types selected_business
    resolve_selected_business check_execution resolve_entity task_entity resolve_source
    verifiable_source_kinds system_source entity_source route_by policy_for new_proposal
    canonical_key insert_proposal proposal_request publish publish_event validate_event
    find_contract event_contracts check_contract consumers_for publish_to is_same_key insert_event
    new_event add_deliveries new_delivery accept_if_automatic decimal digits_before decide_proposal
    check_reason find_proposal settle_proposal with_reason accept_locked is_duplicate accept_into
    accepted_record insert_record merged_record record_change new_revision new_provenance
    resolved_proposal acceptance_request announce update_policy sorted_set insert_text
    automatic_eligible_types save_policy new_policy insert_policy invalidate find_record
    write_invalidation invalidated_record invalidation_request
same_shop = refl

-- The record that the proposal made is invalidated before the proposal is decided again.
decide_proposal_once_example :
    ((result_of first_proposal accepted).revision ≡ 2)
    × ((true ≡ true) ⊎ ((result_of first_proposal accepted).status ≡ ProposalStatus.rejected))
    × (decide_proposal lib consumers owner 30 2 false "No" (state_of dropped)
        ≡ err proposal_changed)
decide_proposal_once_example =
    decide_proposal_once lib consumers owner owner 30 1 2 true false "Keep" "No" "No"
      (state_of proposed) (state_of accepted) (state_of dropped) (result_of first_proposal accepted)
      shop proposed-Distinct proposed_old accepted_ok
      (by_invalidation owner 33 1 "Old" (state_of accepted) (state_of dropped) (state_of dropped)
        (result_of first_record dropped) dropped_ok (here (state_of dropped)))
      known_after same_shop keep_is_clean

accepted-Distinct : Distinct (λ (y : MemoryRecord). y.id) (state_of accepted).records
unfolding propose check_arguments validate_type epistemic_of_type clean strip rstrip lstrip is_space
    words join append clean_content unix_lines replace_cr replace_crlf reject_secrets has_secret
    secret_patterns normalize_expiry check_scope is_execution_type execution_types selected_business
    resolve_selected_business check_execution resolve_entity task_entity resolve_source
    verifiable_source_kinds system_source entity_source route_by policy_for new_proposal
    canonical_key insert_proposal proposal_request publish publish_event validate_event
    find_contract event_contracts check_contract consumers_for publish_to is_same_key insert_event
    new_event add_deliveries new_delivery accept_if_automatic decimal digits_before decide_proposal
    check_reason find_proposal settle_proposal with_reason accept_locked is_duplicate accept_into
    accepted_record insert_record merged_record record_change new_revision new_provenance
    resolved_proposal acceptance_request announce update_policy sorted_set insert_text
    automatic_eligible_types save_policy new_policy insert_policy invalidate find_record
    write_invalidation invalidated_record invalidation_request
accepted-Distinct = (tt, tt)

accepted_old :
    All
      (λ (y : MemoryRecord). y.id < (state_of accepted).outbox.next_uuid)
      (state_of accepted).records
unfolding propose check_arguments validate_type epistemic_of_type clean strip rstrip lstrip is_space
    words join append clean_content unix_lines replace_cr replace_crlf reject_secrets has_secret
    secret_patterns normalize_expiry check_scope is_execution_type execution_types selected_business
    resolve_selected_business check_execution resolve_entity task_entity resolve_source
    verifiable_source_kinds system_source entity_source route_by policy_for new_proposal
    canonical_key insert_proposal proposal_request publish publish_event validate_event
    find_contract event_contracts check_contract consumers_for publish_to is_same_key insert_event
    new_event add_deliveries new_delivery accept_if_automatic decimal digits_before decide_proposal
    check_reason find_proposal settle_proposal with_reason accept_locked is_duplicate accept_into
    accepted_record insert_record merged_record record_change new_revision new_provenance
    resolved_proposal acceptance_request announce update_policy sorted_set insert_text
    automatic_eligible_types save_policy new_policy insert_policy invalidate find_record
    write_invalidation invalidated_record invalidation_request
accepted_old = (omega arith, tt)

-- The same note is proposed again.
abbrev renewed : Result MemoryError (MemoryProposal × MemoryStore)
renewed = propose lib consumers owner (note 20) (state_of dropped)

renewed_ok : renewed ≡ ok (result_of first_proposal renewed, state_of renewed)
unfolding propose check_arguments validate_type epistemic_of_type clean strip rstrip lstrip is_space
    words join append clean_content unix_lines replace_cr replace_crlf reject_secrets has_secret
    secret_patterns normalize_expiry check_scope is_execution_type execution_types selected_business
    resolve_selected_business check_execution resolve_entity task_entity resolve_source
    verifiable_source_kinds system_source entity_source route_by policy_for new_proposal
    canonical_key insert_proposal proposal_request publish publish_event validate_event
    find_contract event_contracts check_contract consumers_for publish_to is_same_key insert_event
    new_event add_deliveries new_delivery accept_if_automatic decimal digits_before decide_proposal
    check_reason find_proposal settle_proposal with_reason accept_locked is_duplicate accept_into
    accepted_record insert_record merged_record record_change new_revision new_provenance
    resolved_proposal acceptance_request announce update_policy sorted_set insert_text
    automatic_eligible_types save_policy new_policy insert_policy invalidate find_record
    write_invalidation invalidated_record invalidation_request
renewed_ok = refl

known_again : resolve_selected_business (state_of renewed).directory owner ≡ some shop
unfolding propose check_arguments validate_type epistemic_of_type clean strip rstrip lstrip is_space
    words join append clean_content unix_lines replace_cr replace_crlf reject_secrets has_secret
    secret_patterns normalize_expiry check_scope is_execution_type execution_types selected_business
    resolve_selected_business check_execution resolve_entity task_entity resolve_source
    verifiable_source_kinds system_source entity_source route_by policy_for new_proposal
    canonical_key insert_proposal proposal_request publish publish_event validate_event
    find_contract event_contracts check_contract consumers_for publish_to is_same_key insert_event
    new_event add_deliveries new_delivery accept_if_automatic decimal digits_before decide_proposal
    check_reason find_proposal settle_proposal with_reason accept_locked is_duplicate accept_into
    accepted_record insert_record merged_record record_change new_revision new_provenance
    resolved_proposal acceptance_request announce update_policy sorted_set insert_text
    automatic_eligible_types save_policy new_policy insert_policy invalidate find_record
    write_invalidation invalidated_record invalidation_request
known_again = refl

record_of_shop : shop.id ≡ (result_of first_record dropped).business_id
unfolding propose check_arguments validate_type epistemic_of_type clean strip rstrip lstrip is_space
    words join append clean_content unix_lines replace_cr replace_crlf reject_secrets has_secret
    secret_patterns normalize_expiry check_scope is_execution_type execution_types selected_business
    resolve_selected_business check_execution resolve_entity task_entity resolve_source
    verifiable_source_kinds system_source entity_source route_by policy_for new_proposal
    canonical_key insert_proposal proposal_request publish publish_event validate_event
    find_contract event_contracts check_contract consumers_for publish_to is_same_key insert_event
    new_event add_deliveries new_delivery accept_if_automatic decimal digits_before decide_proposal
    check_reason find_proposal settle_proposal with_reason accept_locked is_duplicate accept_into
    accepted_record insert_record merged_record record_change new_revision new_provenance
    resolved_proposal acceptance_request announce update_policy sorted_set insert_text
    automatic_eligible_types save_policy new_policy insert_policy invalidate find_record
    write_invalidation invalidated_record invalidation_request
record_of_shop = refl

invalidate_once_example :
    ((result_of first_record dropped).current_revision ≡ 2)
    × ((result_of first_record dropped).status ≡ invalidated)
    × ((result_of first_record dropped).invalidated_at
        ≡ some (result_of first_record dropped).updated_at)
    × (invalidate lib consumers owner 33 2 "Old" (state_of renewed) ≡ err memory_changed)
invalidate_once_example =
    invalidate_once lib consumers owner owner 33 1 2 "Old" "Old" "Old" (state_of accepted)
      (state_of dropped) (state_of renewed) (result_of first_record dropped) shop accepted-Distinct
      accepted_old dropped_ok
      (by_proposal owner (note 20) (state_of dropped) (state_of renewed) (state_of renewed)
        (result_of first_proposal renewed) renewed_ok (here (state_of renewed)))
      known_again record_of_shop drop_is_clean

-- The policy lists working memory, so the second note is accepted at once.
abbrev allowed : Result MemoryError (MemoryPolicy × MemoryStore)
allowed = update_policy owner ("working" ∷ "episodic" ∷ "working" ∷ []) (units 800000) 0 start

abbrev policy : MemoryPolicy
policy = record {
  business_id = 1;
  automatic_accept_types = "episodic" ∷ "working" ∷ [];
  minimum_confidence = units 800000;
  revision = 1;
  updated_by_owner_id = 9;
  created_at = 100;
  updated_at = 100;
}

allowed_ok : allowed ≡ ok (policy, state_of allowed)
unfolding propose check_arguments validate_type epistemic_of_type clean strip rstrip lstrip is_space
    words join append clean_content unix_lines replace_cr replace_crlf reject_secrets has_secret
    secret_patterns normalize_expiry check_scope is_execution_type execution_types selected_business
    resolve_selected_business check_execution resolve_entity task_entity resolve_source
    verifiable_source_kinds system_source entity_source route_by policy_for new_proposal
    canonical_key insert_proposal proposal_request publish publish_event validate_event
    find_contract event_contracts check_contract consumers_for publish_to is_same_key insert_event
    new_event add_deliveries new_delivery accept_if_automatic decimal digits_before decide_proposal
    check_reason find_proposal settle_proposal with_reason accept_locked is_duplicate accept_into
    accepted_record insert_record merged_record record_change new_revision new_provenance
    resolved_proposal acceptance_request announce update_policy sorted_set insert_text
    automatic_eligible_types save_policy new_policy insert_policy invalidate find_record
    write_invalidation invalidated_record invalidation_request
allowed_ok = refl

abbrev taken : Result MemoryError (MemoryProposal × MemoryStore)
taken = propose lib consumers owner (note 20) (state_of allowed)

taken_ok : taken ≡ ok (result_of first_proposal taken, state_of taken)
unfolding propose check_arguments validate_type epistemic_of_type clean strip rstrip lstrip is_space
    words join append clean_content unix_lines replace_cr replace_crlf reject_secrets has_secret
    secret_patterns normalize_expiry check_scope is_execution_type execution_types selected_business
    resolve_selected_business check_execution resolve_entity task_entity resolve_source
    verifiable_source_kinds system_source entity_source route_by policy_for new_proposal
    canonical_key insert_proposal proposal_request publish publish_event validate_event
    find_contract event_contracts check_contract consumers_for publish_to is_same_key insert_event
    new_event add_deliveries new_delivery accept_if_automatic decimal digits_before decide_proposal
    check_reason find_proposal settle_proposal with_reason accept_locked is_duplicate accept_into
    accepted_record insert_record merged_record record_change new_revision new_provenance
    resolved_proposal acceptance_request announce update_policy sorted_set insert_text
    automatic_eligible_types save_policy new_policy insert_policy invalidate find_record
    write_invalidation invalidated_record invalidation_request
taken_ok = refl

known_then : resolve_selected_business (state_of allowed).directory owner ≡ some shop
unfolding propose check_arguments validate_type epistemic_of_type clean strip rstrip lstrip is_space
    words join append clean_content unix_lines replace_cr replace_crlf reject_secrets has_secret
    secret_patterns normalize_expiry check_scope is_execution_type execution_types selected_business
    resolve_selected_business check_execution resolve_entity task_entity resolve_source
    verifiable_source_kinds system_source entity_source route_by policy_for new_proposal
    canonical_key insert_proposal proposal_request publish publish_event validate_event
    find_contract event_contracts check_contract consumers_for publish_to is_same_key insert_event
    new_event add_deliveries new_delivery accept_if_automatic decimal digits_before decide_proposal
    check_reason find_proposal settle_proposal with_reason accept_locked is_duplicate accept_into
    accepted_record insert_record merged_record record_change new_revision new_provenance
    resolved_proposal acceptance_request announce update_policy sorted_set insert_text
    automatic_eligible_types save_policy new_policy insert_policy invalidate find_record
    write_invalidation invalidated_record invalidation_request
known_then = refl

propose_automatic_example :
    (((result_of first_proposal taken).status ≡ pending)
      × ((state_of taken).records ≡ (state_of allowed).records)
      × ((state_of taken).revisions ≡ (state_of allowed).revisions))
    ⊎ ((is_pending (result_of first_proposal taken).status ≡ false)
        × (◌≢◌ {A = String} "observation" "fact")
        × Permitted
            (state_of allowed).policies
            shop
            (note 20)
            (result_of first_proposal taken).source_kind)
propose_automatic_example =
    propose_automatic lib consumers owner (note 20) (state_of allowed) (state_of taken)
      (result_of first_proposal taken) shop known_then taken_ok

taken_at_once : (result_of first_proposal taken).status ≡ ProposalStatus.accepted
unfolding propose check_arguments validate_type epistemic_of_type clean strip rstrip lstrip is_space
    words join append clean_content unix_lines replace_cr replace_crlf reject_secrets has_secret
    secret_patterns normalize_expiry check_scope is_execution_type execution_types selected_business
    resolve_selected_business check_execution resolve_entity task_entity resolve_source
    verifiable_source_kinds system_source entity_source route_by policy_for new_proposal
    canonical_key insert_proposal proposal_request publish publish_event validate_event
    find_contract event_contracts check_contract consumers_for publish_to is_same_key insert_event
    new_event add_deliveries new_delivery accept_if_automatic decimal digits_before decide_proposal
    check_reason find_proposal settle_proposal with_reason accept_locked is_duplicate accept_into
    accepted_record insert_record merged_record record_change new_revision new_provenance
    resolved_proposal acceptance_request announce update_policy sorted_set insert_text
    automatic_eligible_types save_policy new_policy insert_policy invalidate find_record
    write_invalidation invalidated_record invalidation_request
taken_at_once = refl

start-IsWellFormed : IsWellFormed start
start-IsWellFormed = record { policies = tt; proposals = tt; records = tt; revisions = tt }

memory-IsWellFormed_example : IsWellFormed (state_of taken)
memory-IsWellFormed_example =
    memory-IsWellFormed lib consumers start (state_of taken) start-IsWellFormed (
      by_policy owner ("working" ∷ "episodic" ∷ "working" ∷ []) (units 800000) 0 start
        (state_of allowed) (state_of taken) policy allowed_ok
        (by_proposal owner (note 20) (state_of allowed) (state_of taken) (state_of taken)
          (result_of first_proposal taken) taken_ok (here (state_of taken))))

abbrev asks_for : Uuid → Filter
asks_for id = record {
  memory_types = [];
  epistemic_statuses = [];
  query = none;
  execution_type = some "task";
  execution_id = some id;
}

abbrev retrieved : Result MemoryError (List MemoryRecord × MemoryStore)
retrieved = retrieve_memories lib 1 (asks_for 20) 50 (state_of taken)

retrieved_ok : retrieved ≡ ok (result_of [] retrieved, state_of retrieved)
unfolding propose check_arguments validate_type epistemic_of_type clean strip rstrip lstrip is_space
    words join append clean_content unix_lines replace_cr replace_crlf reject_secrets has_secret
    secret_patterns normalize_expiry check_scope is_execution_type execution_types selected_business
    resolve_selected_business check_execution resolve_entity task_entity resolve_source
    verifiable_source_kinds system_source entity_source route_by policy_for new_proposal
    canonical_key insert_proposal proposal_request publish publish_event validate_event
    find_contract event_contracts check_contract consumers_for publish_to is_same_key insert_event
    new_event add_deliveries new_delivery accept_if_automatic decimal digits_before decide_proposal
    check_reason find_proposal settle_proposal with_reason accept_locked is_duplicate accept_into
    accepted_record insert_record merged_record record_change new_revision new_provenance
    resolved_proposal acceptance_request announce update_policy sorted_set insert_text
    automatic_eligible_types save_policy new_policy insert_policy invalidate find_record
    write_invalidation invalidated_record invalidation_request retrieve_memories is_retrieved
    is_one_of in_scope matches_query take sort_by insert_by
retrieved_ok = refl

retrieved_one : length (result_of [] retrieved) ≡ 1
unfolding propose check_arguments validate_type epistemic_of_type clean strip rstrip lstrip is_space
    words join append clean_content unix_lines replace_cr replace_crlf reject_secrets has_secret
    secret_patterns normalize_expiry check_scope is_execution_type execution_types selected_business
    resolve_selected_business check_execution resolve_entity task_entity resolve_source
    verifiable_source_kinds system_source entity_source route_by policy_for new_proposal
    canonical_key insert_proposal proposal_request publish publish_event validate_event
    find_contract event_contracts check_contract consumers_for publish_to is_same_key insert_event
    new_event add_deliveries new_delivery accept_if_automatic decimal digits_before decide_proposal
    check_reason find_proposal settle_proposal with_reason accept_locked is_duplicate accept_into
    accepted_record insert_record merged_record record_change new_revision new_provenance
    resolved_proposal acceptance_request announce update_policy sorted_set insert_text
    automatic_eligible_types save_policy new_policy insert_policy invalidate find_record
    write_invalidation invalidated_record invalidation_request retrieve_memories is_retrieved
    is_one_of in_scope matches_query take sort_by insert_by
retrieved_one = refl

retrieve_memories-IsVisible_example :
    All
      (IsVisible 1 (asks_for 20) ((state_of taken).clock (state_of taken).ticks))
      (result_of [] retrieved)
    × (length (result_of [] retrieved) ≤ 50)
    × Sorted ranks_before (result_of [] retrieved)
    × (state_of retrieved ≡ record (state_of taken) { ticks = (state_of taken).ticks + 1 })
retrieve_memories-IsVisible_example =
    retrieve_memories-IsVisible lib 1 (asks_for 20) 50 (state_of taken) (state_of retrieved)
      (result_of [] retrieved) retrieved_ok

cleaned_ok : clean "  Draft   one " 200 "Memory title" ≡ ok "Draft one"
unfolding clean strip rstrip lstrip is_space words join append
cleaned_ok = refl

clean_again_example :
    (is_empty "Draft one" ≡ false)
    × (text_length "Draft one" ≤ 200)
    × (words "Draft one" ≡ words "  Draft   one ")
    × (clean "Draft one" 200 "Memory title" ≡ ok "Draft one")
    × (canonical_key lib "working" "observation" "Draft one" "x"
        ≡ canonical_key lib "working" "observation" "  Draft   one " "x")
clean_again_example =
    clean_again lib "  Draft   one " "Memory title" 200 "working" "observation" "x" "Draft one"
      cleaned_ok

-- The same note for the other task merges into the record of the first, and its own task is given
-- nothing.
abbrev merged_for_other : Result MemoryError (MemoryProposal × MemoryStore)
merged_for_other = propose lib consumers owner (note 21) (state_of taken)

other_merged : (result_of first_proposal merged_for_other).status ≡ ProposalStatus.merged
unfolding propose check_arguments validate_type epistemic_of_type clean strip rstrip lstrip is_space
    words join append clean_content unix_lines replace_cr replace_crlf reject_secrets has_secret
    secret_patterns normalize_expiry check_scope is_execution_type execution_types selected_business
    resolve_selected_business check_execution resolve_entity task_entity resolve_source
    verifiable_source_kinds system_source entity_source route_by policy_for new_proposal
    canonical_key insert_proposal proposal_request publish publish_event validate_event
    find_contract event_contracts check_contract consumers_for publish_to is_same_key insert_event
    new_event add_deliveries new_delivery accept_if_automatic decimal digits_before decide_proposal
    check_reason find_proposal settle_proposal with_reason accept_locked is_duplicate accept_into
    accepted_record insert_record merged_record record_change new_revision new_provenance
    resolved_proposal acceptance_request announce update_policy sorted_set insert_text
    automatic_eligible_types save_policy new_policy insert_policy invalidate find_record
    write_invalidation invalidated_record invalidation_request
other_merged = refl

other_is_given_nothing :
    result_of [] (retrieve_memories lib 1 (asks_for 21) 50 (state_of merged_for_other)) ≡ []
unfolding propose check_arguments validate_type epistemic_of_type clean strip rstrip lstrip is_space
    words join append clean_content unix_lines replace_cr replace_crlf reject_secrets has_secret
    secret_patterns normalize_expiry check_scope is_execution_type execution_types selected_business
    resolve_selected_business check_execution resolve_entity task_entity resolve_source
    verifiable_source_kinds system_source entity_source route_by policy_for new_proposal
    canonical_key insert_proposal proposal_request publish publish_event validate_event
    find_contract event_contracts check_contract consumers_for publish_to is_same_key insert_event
    new_event add_deliveries new_delivery accept_if_automatic decimal digits_before decide_proposal
    check_reason find_proposal settle_proposal with_reason accept_locked is_duplicate accept_into
    accepted_record insert_record merged_record record_change new_revision new_provenance
    resolved_proposal acceptance_request announce update_policy sorted_set insert_text
    automatic_eligible_types save_policy new_policy insert_policy invalidate find_record
    write_invalidation invalidated_record invalidation_request retrieve_memories is_retrieved
    is_one_of in_scope matches_query take sort_by insert_by
other_is_given_nothing = refl
