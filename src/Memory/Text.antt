-- ===== src/Memory/Text.antt =====
-- The checks of memory/service.py that read no table: `_clean`, `_clean_content`, `_json_metadata`,
-- `_reject_secrets`, `_manual_uri`, `canonical_key`, `_validate_type` and `_normalize_expiry`.
pub mod Clean
use foundora_ai.Base.{
  ℕ, ◌-◌, String, Bool, true, false, ◌&&◌, ◌||◌, not, Option, none, some, List, [], ◌∷◌, map,
  Result, ok, err, ◌==◌, string_eq, if◌then◌else◌, ltb, leb, contains, any, Uuid, Datetime, Details,
  External, is_empty, text_length, strip, words, join, unix_lines,
}
use foundora_ai.Base.Fallible.{◌>>=◌, ◌>>◌, raise_if}
use Prim.Native.String.{len}
use foundora_ai.Business.{is_none}
use foundora_ai.Memory.Model.{
  MemoryError, out_of_length, content_length, metadata_invalid, metadata_too_large, secret_found,
  uri_too_long, uri_refused, uri_with_secret, not_a_url, unsupported_type, mismatched_type,
  expiry_without_zone, expiry_past, working_without_scope, working_too_long, scoped_elsewhere,
}

-- A split URL: `username` is none where the source's test takes it for absent.
pub record Url : Type 0 where
  pub scheme : String
  pub netloc : String
  pub username : Option String
  pub query : String

-- What the service uses of other code: the search of a regular expression, with its flag
-- IGNORECASE; `unicodedata.normalize("NFKC", _).casefold()`; SHA-256; the two renderings of an
-- object as JSON; `urlsplit` and `parse_qsl`; the reading of a UUID; and SQL's ILIKE.
pub record Libraries : Type 0 where
  pub external : External
  pub search : String → Bool → String → Bool
  pub casefold : String → String
  pub casefold_nfkc : String → String
  pub sha256 : String → String
  pub dumps_compact : Details → Option String
  pub dumps : Details → String
  pub urlsplit : String → Option Url
  pub parse_qsl : String → List (String × String)
  pub uuid_of_text : String → Option Uuid
  pub ilike : String → String → Bool

-- `_clean`
unfoldable pub clean : String → ℕ → String → Result MemoryError String
clean value maximum label =
    let normalized = join " " (words (strip value)) in
    if is_empty normalized || ltb maximum (text_length normalized)
    then err (out_of_length label maximum)
    else ok normalized

-- `_clean_content`
unfoldable pub clean_content : String → Result MemoryError String
clean_content value =
    let normalized = unix_lines (strip value) in
    if is_empty normalized || ltb 8000 (text_length normalized)
    then err content_length
    else ok normalized

-- `_SECRET_PATTERNS`, each with its flag.
unfoldable pub secret_patterns : List (String × Bool)
secret_patterns =
    ("-----BEGIN [A-Z ]*PRIVATE KEY-----", true)
    ∷ ("\\bgithub_pat_[A-Za-z0-9_]{20,}\\b", false)
    ∷ ("\\bgh[pousr]_[A-Za-z0-9]{20,}\\b", false)
    ∷ ("\\bsk-[A-Za-z0-9_-]{20,}\\b", false)
    ∷ ("\\bAKIA[0-9A-Z]{16}\\b", false)
    ∷ ("\\b(password|passwd|secret|api[_-]?key|access[_-]?token)\\s*[:=]\\s*\\S+", true)
    ∷ []

unfoldable pub has_secret : Libraries → Option String → Bool
has_secret lib none = false
has_secret lib (some value) =
    not (is_empty value) && any (λ p. lib.search p.0 p.1 value) secret_patterns

-- `_reject_secrets`
unfoldable pub reject_secrets : Libraries → List (Option String) → Result MemoryError (Unit {0})
reject_secrets lib values = raise_if (any (has_secret lib) values) secret_found

-- The first lines of `decide_proposal` and of `invalidate`.
unfoldable pub check_reason : Libraries → String → String → Result MemoryError String
check_reason lib label reason = do
  normalized ← clean reason 500 label
  reject_secrets lib (some normalized ∷ [])
  ok normalized

-- `_json_metadata`
unfoldable pub json_metadata : Libraries → Details → Result MemoryError Details
json_metadata lib value = elim (lib.dumps_compact value) [
  | none ↦ err metadata_invalid
  | some rendered ↦ do
    raise_if (ltb 16384 (len rendered)) metadata_too_large
    reject_secrets lib (some rendered ∷ [])
    ok value
]

-- `_SENSITIVE_QUERY_NAMES`
unfoldable pub sensitive_query_names : List String
sensitive_query_names =
    "token" ∷ "access_token" ∷ "api_key" ∷ "apikey" ∷ "key" ∷ "secret" ∷ "password" ∷ "signature"
    ∷ []

abbrev pub is_given : Option String → Bool
is_given none = false
is_given (some s) = not (is_empty s)

-- `_manual_uri`
unfoldable pub check_url : Libraries → String → Url → Result MemoryError (Option String)
check_url lib normalized parsed = do
  raise_if
      (not (contains ("http" ∷ "https" ∷ []) parsed.scheme)
        || (is_empty parsed.netloc || is_given parsed.username))
      uri_refused
  raise_if
      (any (λ p. contains sensitive_query_names (lib.casefold p.0)) (lib.parse_qsl parsed.query))
      uri_with_secret
  reject_secrets lib (some normalized ∷ [])
  ok (some normalized)

unfoldable pub manual_uri : Libraries → Option String → Result MemoryError (Option String)
manual_uri lib none = ok none
manual_uri lib (some value) =
    let normalized = strip value in
    if is_empty normalized
    then ok none
    else if ltb 2048 (text_length normalized)
    then err uri_too_long
    else elim (lib.urlsplit normalized) [
      | none ↦ err not_a_url
      | some parsed ↦ check_url lib normalized parsed
    ]

unfoldable pub canonical_key : Libraries → String → String → String → String → String
canonical_key lib memory_type epistemic_status title content =
    let items =
      memory_type ∷ epistemic_status ∷ join " " (words title) ∷ join " " (words content) ∷ [] in
    lib.sha256 (join "\n" (map (λ item. strip (lib.casefold_nfkc item)) items))

-- `EPISTEMIC_BY_TYPE`: none for a text that is not of MEMORY_TYPES.
unfoldable pub epistemic_of_type : String → Option (List String)
epistemic_of_type memory_type =
    if memory_type == "working"
    then some ("observation" ∷ "assumption" ∷ [])
    else if memory_type == "episodic"
    then some ("observation" ∷ [])
    else if memory_type == "semantic"
    then some ("fact" ∷ "assumption" ∷ [])
    else if memory_type == "decision"
    then some ("decision" ∷ [])
    else if memory_type == "preference"
    then some ("preference" ∷ [])
    else if memory_type == "workflow"
    then some ("procedure" ∷ [])
    else if memory_type == "evaluation"
    then some ("evaluation" ∷ [])
    else none

-- `AUTOMATIC_ELIGIBLE_TYPES`
unfoldable pub automatic_eligible_types : List String
automatic_eligible_types = "working" ∷ "episodic" ∷ "workflow" ∷ "evaluation" ∷ []

-- `VERIFIABLE_SOURCE_KINDS`
unfoldable pub verifiable_source_kinds : List String
verifiable_source_kinds = "knowledge_chunk" ∷ "task" ∷ "agent_run" ∷ "workflow_run" ∷ []

-- `EXECUTION_TYPES`
unfoldable pub execution_types : List String
execution_types = "task" ∷ "agent_run" ∷ "workflow_run" ∷ []

-- `_validate_type`
unfoldable pub validate_type : String → String → Result MemoryError (Unit {0})
validate_type memory_type epistemic_status = elim (epistemic_of_type memory_type) [
  | none ↦ err unsupported_type
  | some allowed ↦
      raise_if (not (contains allowed epistemic_status))
        (mismatched_type epistemic_status memory_type)
]

-- A `datetime` argument, with or without a timezone.
pub data Moment : Type 0 where
  naive aware : Datetime → Moment

-- MAX_WORKING_LIFETIME, in microseconds.
abbrev pub max_working_lifetime : ℕ
max_working_lifetime = 604800000000

unfoldable pub is_execution_type : Option String → Bool
is_execution_type none = false
is_execution_type (some e) = contains execution_types e

-- The last part of `_normalize_expiry`.
unfoldable pub check_scope :
    String
    → Option Datetime
    → Option String
    → Option Uuid
    → Datetime
    → Result MemoryError (Option Datetime)
check_scope memory_type expires_at execution_type execution_id now =
    if memory_type == "working"
    then (if not (is_execution_type execution_type) || is_none execution_id
        then err working_without_scope
        else elim expires_at [
          | none ↦ err working_without_scope
          | some at ↦
              if ltb max_working_lifetime (at - now) then err working_too_long else ok (some at)
        ])
    else if not (is_none execution_type) || not (is_none execution_id)
    then err scoped_elsewhere
    else ok expires_at

-- `_normalize_expiry`
unfoldable pub normalize_expiry :
    String
    → Option Moment
    → Option String
    → Option Uuid
    → Datetime
    → Result MemoryError (Option Datetime)
normalize_expiry memory_type none execution_type execution_id now =
    check_scope memory_type none execution_type execution_id now
normalize_expiry memory_type (some (naive at)) execution_type execution_id now =
    err expiry_without_zone
normalize_expiry memory_type (some (aware at)) execution_type execution_id now =
    if leb at now
    then err expiry_past
    else check_scope memory_type (some at) execution_type execution_id now
