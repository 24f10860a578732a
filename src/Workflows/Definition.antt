-- ===== src/Workflows/Definition.antt =====
-- workflows/definition.py: `parse_definition` and `execute_internal_tool`.
pub mod Checked
pub mod Ordered
pub mod Fuel
use foundora_ai.Base.{
  ℕ, zero, suc, String, Bool, true, false, ◌&&◌, ◌||◌, not, Option, none, some, List, [], ◌∷◌,
  Result, ok, err, ◌==◌, string_eq, if◌then◌else◌, ltb, length, contains, any, all, find, map,
  is_empty, text_length,
}
use Prim.Native.Char.{Char}
use foundora_ai.Base.Fallible.{◌>>=◌, ◌>>◌, raise_if}
use foundora_ai.Workflows.Json.{
  Json, null, boolean, integer, negative, real, string, array, object, Items, no_items, item,
  Fields, no_fields, field, get, item_count,
}

-- `WorkflowDefinitionError` by its message; `type_error` is the TypeError of a list or an object that is
-- looked up in a set, `key_error` that of a missing key, `tool_failed` the RuntimeError of the failing
-- tool. `out_of_fuel` is no error of the source.
pub data DefinitionError : Type 0 where
  no_steps too_many_steps step_not_object invalid_key cycle_found : DefinitionError
  duplicated_key unsupported_type invalid_dependencies invalid_retries : String → DefinitionError
  tool_not_listed agent_required version_required invalid_condition : String → DefinitionError
  invalid_dependency : String → DefinitionError
  type_error key_error tool_failed tool_unauthorized input_not_object out_of_fuel : DefinitionError

-- What the parser uses of other code: `str.isalnum` of a character, and whether `uuid.UUID(str(_))`
-- accepts a value.
pub record Libraries : Type 0 where
  pub is_alnum : Char → Bool
  pub is_uuid : Option Json → Bool

pub record StepDefinition : Type 0 where
  pub key : String
  pub step_type : String
  pub depends_on : List String
  pub max_retries : ℕ
  pub config : Fields

-- `STEP_TYPES` and `INTERNAL_TOOLS`
abbrev pub step_types : List String
step_types = "tool" ∷ "agent" ∷ "approval" ∷ "wait" ∷ []

abbrev pub internal_tools : List String
internal_tools =
    "foundora.internal.echo" ∷ "foundora.internal.fail" ∷ "foundora.internal.discard" ∷ []

-- `value in members`, of a set of texts.
unfoldable pub member_of : List String → Option Json → Result DefinitionError Bool
member_of members (some (string t)) = ok (contains members t)
member_of members (some (array x)) = err type_error
member_of members (some (object x)) = err type_error
member_of members _ = ok false

unfoldable pub is_key_text : Libraries → String → Bool
is_key_text lib String.[] = true
is_key_text lib (String.◌∷◌ c s) =
    (lib.is_alnum c || (contains ("_" ∷ "-" ∷ []) (String.◌∷◌ c String.[]))) && is_key_text lib s

unfoldable pub parse_key : Libraries → Option Json → Result DefinitionError String
parse_key lib (some (string key)) =
    if is_empty key || (ltb 80 (text_length key) || not (is_key_text lib key))
    then err invalid_key
    else ok key
parse_key lib _ = err invalid_key

-- The texts of a list, none if it holds anything else.
abbrev cons_text : String → Option (List String) → Option (List String)
cons_text t none = none
cons_text t (some ts) = some (t ∷ ts)

unfoldable pub texts_of : Items → Option (List String)
texts_of no_items = some []
texts_of (item (string t) rest) = cons_text t (texts_of rest)
texts_of (item _ rest) = none

abbrev or_invalid : String → Option (List String) → Result DefinitionError (List String)
or_invalid key none = err (invalid_dependencies key)
or_invalid key (some texts) = ok texts

-- `depends_on`, `[]` if it is missing.
unfoldable pub parse_dependencies : String → Option Json → Result DefinitionError (List String)
parse_dependencies key none = ok []
parse_dependencies key (some (array items)) = or_invalid key (texts_of items)
parse_dependencies key (some _) = err (invalid_dependencies key)

-- `max_retries`, 0 if it is missing.
unfoldable pub parse_retries : String → Option Json → Result DefinitionError ℕ
parse_retries key none = ok 0
parse_retries key (some (integer n)) = if ltb 10 n then err (invalid_retries key) else ok n
parse_retries key (some _) = err (invalid_retries key)

unfoldable pub parse_type : String → Option Json → Result DefinitionError String
parse_type key (some (string t)) =
    if contains step_types t then ok t else err (unsupported_type key)
parse_type key (some (array x)) = err type_error
parse_type key (some (object x)) = err type_error
parse_type key _ = err (unsupported_type key)

unfoldable pub check_tool : String → String → Fields → Result DefinitionError (Unit {0})
check_tool key step_type config =
    if step_type == "tool"
    then (member_of internal_tools (get "tool" config) >>= λ listed.
        raise_if (not listed) (tool_not_listed key))
    else ok tt

abbrev is_string : Option Json → Bool
is_string (some (string t)) = true
is_string _ = false

unfoldable pub check_agent :
    Libraries → String → String → Fields → Result DefinitionError (Unit {0})
check_agent lib key step_type config =
    if step_type == "agent"
    then if not (is_string (get "agent_id" config))
      then err (agent_required key)
      else raise_if (not (lib.is_uuid (get "agent_version_id" config))) (version_required key)
    else ok tt

abbrev is_path : Option Json → Bool
is_path (some (string t)) = not (is_empty t)
is_path _ = false

unfoldable pub check_condition : String → Option Json → Result DefinitionError (Unit {0})
check_condition key none = ok tt
check_condition key (some null) = ok tt
check_condition key (some (object condition)) =
    member_of ("input" ∷ "steps" ∷ []) (get "source" condition) >>= λ known.
    raise_if (not known || not (is_path (get "path" condition))) (invalid_condition key)
check_condition key (some _) = err (invalid_condition key)

-- The body of the first loop; `keys` holds the keys of the earlier steps.
unfoldable pub parse_step : Libraries → List String → Fields → Result DefinitionError StepDefinition
parse_step lib keys config = do
  key ← parse_key lib (get "key" config)
  raise_if (contains keys key) (duplicated_key key)
  step_type ← parse_type key (get "type" config)
  depends_on ← parse_dependencies key (get "depends_on" config)
  max_retries ← parse_retries key (get "max_retries" config)
  check_tool key step_type config
  check_agent lib key step_type config
  check_condition key (get "condition" config)
  ok (record {
    key = key;
    step_type = step_type;
    depends_on = depends_on;
    max_retries = max_retries;
    config = config;
  })

unfoldable pub parse_steps :
    Libraries → List String → Items → Result DefinitionError (List StepDefinition)
parse_steps lib keys no_items = ok []
parse_steps lib keys (item (object config) rest) = do
  step ← parse_step lib keys config
  steps ← parse_steps lib (step.key ∷ keys) rest
  ok (step ∷ steps)
parse_steps lib keys (item _ rest) = err step_not_object

abbrev pub key_of : StepDefinition → String
key_of step = step.key

-- The second loop.
unfoldable pub check_dependencies :
    List String → List StepDefinition → Result DefinitionError (Unit {0})
check_dependencies keys [] = ok tt
check_dependencies keys (step ∷ steps) = do
  raise_if (contains step.depends_on step.key || not (all (contains keys) step.depends_on))
      (invalid_dependency step.key)
  check_dependencies keys steps

-- `by_key[key].depends_on`
unfoldable pub dependencies_of : List StepDefinition → String → Result DefinitionError (List String)
dependencies_of [] key = err key_error
dependencies_of (step ∷ steps) key =
    let rest = dependencies_of steps key in if step.key == key then ok step.depends_on else rest

abbrev pub finish_visit :
    String → Result DefinitionError (List String) → Result DefinitionError (List String)
finish_visit key (ok visited) = ok (key ∷ visited)
finish_visit key (err e) = err e

-- `visit` of each key of a list in turn, for at most `fuel` nested calls; it returns the keys visited, the
-- last one first.
unfoldable pub visit_each :
    ℕ
    → List StepDefinition
    → List String
    → List String
    → List String
    → Result DefinitionError (List String)
visit_each fuel steps visiting visited [] = ok visited
visit_each zero steps visiting visited (key ∷ keys) = err out_of_fuel
visit_each (suc fuel) steps visiting visited (key ∷ keys) =
    (if contains visiting key
      then err cycle_found
      else if contains visited key
      then ok visited
      else dependencies_of steps key >>= λ needed.
          finish_visit key (visit_each fuel steps (key ∷ visiting) visited needed))
    >>= λ next. visit_each (suc fuel) steps visiting next keys

-- Calls nest at most once for each step.
unfoldable pub check_cycles : List StepDefinition → Result DefinitionError (List String)
check_cycles steps = visit_each (suc (length steps)) steps [] [] (map key_of steps)

unfoldable pub parse_items : Libraries → Items → Result DefinitionError (List StepDefinition)
parse_items lib items = do
  raise_if (ltb 100 (item_count items)) too_many_steps
  steps ← parse_steps lib [] items
  check_dependencies (map key_of steps) steps
  check_cycles steps
  ok steps

unfoldable pub parse_definition : Libraries → Fields → Result DefinitionError (List StepDefinition)
parse_definition lib definition = elim (get "steps" definition) [
  | some (array (item first rest)) ↦ parse_items lib (item first rest)
  | _ ↦ err no_steps
]

-- `execute_internal_tool`
unfoldable pub execute_internal_tool : Json → Json → Result DefinitionError Fields
execute_internal_tool (string tool) payload =
    if tool == "foundora.internal.fail"
    then err tool_failed
    else if tool == "foundora.internal.discard"
    then ok (field "discarded" (boolean true) no_fields)
    else if not (tool == "foundora.internal.echo")
    then err tool_unauthorized
    else elim payload [ object fields ↦ ok fields | _ ↦ err input_not_object ]
execute_internal_tool _ payload = err tool_unauthorized
