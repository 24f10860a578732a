-- ===== src/Workflows/Examples.antt =====
-- A workflow of two steps, and one whose steps wait for each other.
use foundora_ai.Base.{
  string_eq, ◌≡◌, refl, true, false, List, [], ◌∷◌, Result, ok, err, contains, map, All,
}
use foundora_ai.Workflows.Json.{
  string, array, object, integer, Items, no_items, item, Fields, no_fields, field, get, item_count,
}
use foundora_ai.Workflows.Definition.{
  Libraries, StepDefinition, DefinitionError, cycle_found, member_of, is_key_text, parse_key,
  texts_of, parse_dependencies, parse_retries, parse_type, check_tool, check_agent, check_condition,
  parse_step, parse_steps, check_dependencies, dependencies_of, visit_each, check_cycles,
  parse_items, parse_definition, key_of,
}
use foundora_ai.Workflows.Definition.Ordered.{IsOrdered, check_cycles-IsOrdered}
use foundora_ai.Workflows.Definition.Fuel.{ran_out, check_cycles-runs}
use foundora_ai.Workflows.Definition.Checked.{IsSound, parse_definition-IsSound}

abbrev lib : Libraries
lib = record { is_alnum = λ _. true; is_uuid = λ _. true }

abbrev echo_step : Items → Fields
echo_step depends_on = field "key" (string "draft") (
    field "type" (string "tool") (
      field "tool" (string "foundora.internal.echo")
        (field "depends_on" (array depends_on) no_fields)))

abbrev review_step : Fields
review_step = field "key" (string "review") (
    field "type" (string "approval") (
      field "max_retries" (integer 2)
        (field "depends_on" (array (item (string "draft") no_items)) no_fields)))

-- The review stands first and waits for the draft.
abbrev definition : Fields
definition =
    field "steps" (array (item (object review_step) (item (object (echo_step no_items)) no_items)))
      no_fields

abbrev steps_of : Result DefinitionError (List StepDefinition) → List StepDefinition
steps_of (ok steps) = steps
steps_of (err e) = []

abbrev parsed : Result DefinitionError (List StepDefinition)
parsed = parse_definition lib definition

parsed_ok : parsed ≡ ok (steps_of parsed)
unfolding parse_definition get parse_items item_count parse_steps parse_step parse_key is_key_text
    parse_type parse_dependencies texts_of parse_retries check_tool member_of check_agent
    check_condition check_dependencies check_cycles visit_each dependencies_of
parsed_ok = refl

parse_definition-IsSound_example : IsSound lib (steps_of parsed)
parse_definition-IsSound_example =
    parse_definition-IsSound lib definition (steps_of parsed) parsed_ok

order_ok : check_cycles (steps_of parsed) ≡ ok ("review" ∷ "draft" ∷ [])
unfolding parse_definition get parse_items item_count parse_steps parse_step parse_key is_key_text
    parse_type parse_dependencies texts_of parse_retries check_tool member_of check_agent
    check_condition check_dependencies check_cycles visit_each dependencies_of
order_ok = refl

check_cycles-IsOrdered_example :
    IsOrdered (steps_of parsed) ("review" ∷ "draft" ∷ [])
    × All (λ d. contains ("review" ∷ "draft" ∷ []) d ≡ true) (map key_of (steps_of parsed))
check_cycles-IsOrdered_example =
    check_cycles-IsOrdered (steps_of parsed) ("review" ∷ "draft" ∷ []) order_ok

check_cycles-runs_example : ran_out (check_cycles (steps_of parsed)) ≡ false
check_cycles-runs_example = check_cycles-runs (steps_of parsed)

in_a_circle :
    parse_definition lib (
      field "steps"
        (array (
          item
            (object review_step)
            (item (object (echo_step (item (string "review") no_items))) no_items)))
        no_fields)
    ≡ err cycle_found
unfolding parse_definition get parse_items item_count parse_steps parse_step parse_key is_key_text
    parse_type parse_dependencies texts_of parse_retries check_tool member_of check_agent
    check_condition check_dependencies check_cycles visit_each dependencies_of
in_a_circle = refl
