-- ===== src/ModelGateway/Examples.antt =====
-- The routes of a router with the default settings and one task route.
use foundora_ai.Base.{
  ◌≡◌, refl, true, none, List, [], ◌∷◌, ok, err, strip, rstrip, lstrip, is_space,
}
use foundora_ai.ModelGateway.Routing.{
  sensitive_fallback, RouteCandidate, Libraries, Router, model_registry, model_spec, model_of,
  route_of, split_commas, fallbacks, first_choice, more_choices, select, candidates,
}
use foundora_ai.ModelGateway.Routing.Governed.{IsGoverned, candidates-IsGoverned}

abbrev lib : Libraries
lib = record { loads = λ _. none; is_task_name = λ _. true; lower = λ t. t }

abbrev haiku : RouteCandidate
haiku = record { provider = "anthropic"; model = "claude-haiku-4-5-20251001" }

abbrev router : Router
router = record {
  primary_provider = "openai";
  fallback_providers = "gemini, anthropic";
  providers =
      ("openai", "gpt-4o-mini")
      ∷ ("gemini", "gemini-3.6-flash")
      ∷ ("anthropic", "claude-haiku-4-5-20251001")
      ∷ [];
  task_routes = ("summary", haiku) ∷ [];
}

abbrev offered_list : List RouteCandidate
offered_list =
    haiku
    ∷ record { provider = "openai"; model = "gpt-4o-mini" }
    ∷ record { provider = "gemini"; model = "gemini-3.6-flash" }
    ∷ []

offered : candidates lib router "summary" "internal" true ≡ ok offered_list
unfolding candidates first_choice route_of more_choices model_of fallbacks split_commas strip rstrip
    lstrip is_space select model_spec model_registry
offered = refl

candidates-IsGoverned_example : IsGoverned router "summary" "internal" true offered_list
candidates-IsGoverned_example =
    candidates-IsGoverned lib router "summary" "internal" true offered_list offered

sensitive_refused : candidates lib router "summary" "sensitive" true ≡ err sensitive_fallback
unfolding candidates
sensitive_refused = refl
