-- ===== src/ModelGateway/Routing.antt =====
-- model_gateway/routing.py, and the registry of model_gateway/registry.py that it checks against.
pub mod Governed
use foundora_ai.Base.{
  ℕ, zero, suc, ◌+◌, ◌≤◌, ◌<◌, ◌≡◌, inl, inr, refl, sym, ap, subst, ◌∙◌, arith, String, Bool, true,
  false, ◌&&◌, ◌||◌, not, Option, none, some, List, [], ◌∷◌, ◌++◌, Result, ok, err, ◌==◌, string_eq,
  if◌then◌else◌, length, contains, any, find, All, Bool-cases, Option-cases, Result-cases, strip,
  nat_eq,
}
use Prim.Native.Char.{code}
use foundora_ai.Base.Fallible.{◌>>=◌, ◌>>◌, raise_if}
use foundora_ai.Workflows.Json.{Json, string, array, object, Fields, no_fields, field, get}

-- A price is in hundredths of a microdollar.
pub record ModelSpec : Type 0 where
  pub provider : String
  pub model : String
  pub input_microusd_per_token : ℕ
  pub output_microusd_per_token : ℕ
  pub supports_streaming : Bool
  pub supports_structured_output : Bool

-- `MODEL_REGISTRY`
unfoldable pub model_registry : List ModelSpec
model_registry =
    record {
      provider = "openai";
      model = "gpt-4o-mini";
      input_microusd_per_token = 15;
      output_microusd_per_token = 60;
      supports_streaming = true;
      supports_structured_output = true;
    }
    ∷ record {
      provider = "gemini";
      model = "gemini-3.6-flash";
      input_microusd_per_token = 75;
      output_microusd_per_token = 375;
      supports_streaming = true;
      supports_structured_output = true;
    }
    ∷ record {
      provider = "anthropic";
      model = "claude-haiku-4-5-20251001";
      input_microusd_per_token = 100;
      output_microusd_per_token = 500;
      supports_streaming = true;
      supports_structured_output = true;
    }
    ∷ []

-- The ValueErrors by their message, and `FallbackPolicyViolation`; `type_error` is the TypeError of a list
-- or an object that is looked up in a set, `key_error` that of a missing provider.
pub data RouteError : Type 0 where
  not_registered invalid_json routes_not_object invalid_name route_not_object : RouteError
  unsupported_route unsupported_fallback type_error key_error : RouteError
  sensitive_fallback : RouteError

-- A provider, by its name, and a model.
pub record RouteCandidate : Type 0 where
  pub provider : String
  pub model : String

abbrev is_model : RouteCandidate → ModelSpec → Bool
is_model c item = item.provider == c.provider && item.model == c.model

abbrev or_unregistered : Option ModelSpec → Result RouteError ModelSpec
or_unregistered none = err not_registered
or_unregistered (some item) = ok item

unfoldable pub model_spec : RouteCandidate → Result RouteError ModelSpec
model_spec c = or_unregistered (find (is_model c) model_registry)

-- What the router uses of other code: `json.loads`, the full match of `^[a-z][a-z0-9_.-]{0,79}$`, and
-- `str.lower`.
pub record Libraries : Type 0 where
  pub loads : String → Option Json
  pub is_task_name : String → Bool
  pub lower : String → String

abbrev pub provider_names : List String
provider_names = "openai" ∷ "gemini" ∷ "anthropic" ∷ []

unfoldable pub parse_route : Option Json → Option Json → Result RouteError RouteCandidate
parse_route (some (array p)) model = err type_error
parse_route (some (object p)) model = err type_error
parse_route (some (string p)) (some (string m)) =
    if contains provider_names p
    then (model_spec (record { provider = p; model = m }) >>= λ item.
        ok (record { provider = p; model = m }))
    else err unsupported_route
parse_route provider model = err unsupported_route

-- `_parse_task_routes`, from the loop on.
unfoldable pub parse_routes :
    Libraries → Fields → Result RouteError (List (String × RouteCandidate))
parse_routes lib no_fields = ok []
parse_routes lib (field name (object route) rest) = do
  raise_if (not (lib.is_task_name name)) invalid_name
  parsed ← parse_route (get "provider" route) (get "model" route)
  routes ← parse_routes lib rest
  ok ((name, parsed) ∷ routes)
parse_routes lib (field name _ rest) =
    if not (lib.is_task_name name) then err invalid_name else err route_not_object

unfoldable pub parse_task_routes :
    Libraries → String → Result RouteError (List (String × RouteCandidate))
parse_task_routes lib value = elim (lib.loads value) [
  | some (object fields) ↦ parse_routes lib fields
  | some other ↦ err routes_not_object
  | none ↦ err invalid_json
]

-- The settings that the router reads, and the models of its providers.
pub record Router : Type 0 where
  pub primary_provider : String
  pub fallback_providers : String
  pub providers : List (String × String)
  pub task_routes : List (String × RouteCandidate)

-- `self._providers[name].model`
unfoldable pub model_of : String → List (String × String) → Result RouteError RouteCandidate
model_of name [] = err key_error
model_of name ((n, m) ∷ rest) =
    let later = model_of name rest in
    if n == name then ok (record { provider = name; model = m }) else later

unfoldable pub route_of : String → List (String × RouteCandidate) → Option RouteCandidate
route_of task_type [] = none
route_of task_type ((n, r) ∷ rest) =
    let later = route_of task_type rest in if n == task_type then some r else later

-- `value.split(",")`
abbrev push : Bool → String → List String → List String
push true c pieces = String.[] ∷ pieces
push false String.[] pieces = pieces
push false (String.◌∷◌ c s) [] = String.◌∷◌ c String.[] ∷ []
push false (String.◌∷◌ c s) (p ∷ ps) = String.◌∷◌ c p ∷ ps

unfoldable pub split_commas : String → List String
split_commas String.[] = String.[] ∷ []
split_commas (String.◌∷◌ c s) = push (code c == 44) (String.◌∷◌ c String.[]) (split_commas s)

unfoldable pub fallbacks :
    Libraries → Router → List String → Result RouteError (List RouteCandidate)
fallbacks lib router [] = ok []
fallbacks lib router (value ∷ values) = do
  raise_if (not (contains provider_names (lib.lower (strip value)))) unsupported_fallback
  first ← model_of (lib.lower (strip value)) router.providers
  rest ← fallbacks lib router values
  ok (first ∷ rest)

-- The route of the task, or the primary provider's.
unfoldable pub first_choice : Router → String → Result RouteError RouteCandidate
first_choice router task_type = elim (route_of task_type router.task_routes) [
  | some route ↦ ok route
  | none ↦ model_of router.primary_provider router.providers
]

unfoldable pub more_choices : Libraries → Router → Bool → Result RouteError (List RouteCandidate)
more_choices lib router false = ok []
more_choices lib router true = do
  primary ← model_of router.primary_provider router.providers
  rest ← fallbacks lib router (split_commas router.fallback_providers)
  ok (primary ∷ rest)

abbrev pub is_same : RouteCandidate → RouteCandidate → Bool
is_same a b = a.provider == b.provider && a.model == b.model

-- The last loop, with its lookup of the provider.
unfoldable pub select :
    List (String × String)
    → List RouteCandidate
    → List RouteCandidate
    → Result RouteError (List RouteCandidate)
select providers seen [] = ok []
select providers seen (c ∷ cs) =
    let skipped = select providers seen cs in
    if any (is_same c) seen
    then skipped
    else model_spec c >>= λ item. model_of c.provider providers >>= λ provider.
        select providers (c ∷ seen) cs >>= λ rest. ok (c ∷ rest)

unfoldable pub candidates :
    Libraries → Router → String → String → Bool → Result RouteError (List RouteCandidate)
candidates lib router task_type sensitivity allow_fallback = do
  raise_if (allow_fallback && sensitivity == "sensitive") sensitive_fallback
  first ← first_choice router task_type
  more ← more_choices lib router allow_fallback
  select router.providers [] (first ∷ more)
