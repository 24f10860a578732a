-- ===== src/Workflows/Definition/Checked.antt =====
-- What `parse_definition` accepts.
use foundora_ai.Base.{
  ℕ, suc, ◌≤◌, ◌<◌, ◌≡◌, ◌⊎◌, inl, inr, refl, ap, subst, ◌∙◌, arith, String, true, false, ◌||◌, not,
  Option, List, [], ◌∷◌, ok, ◌==◌, string_eq, ltb, length, contains, all, map, All, is_empty,
  text_length, Bool-cases, Result-cases, Option-cases,
}
use foundora_ai.Workflows.Json.{
  Json, null, boolean, integer, negative, real, string, array, object, Items, no_items, item,
  Fields, get, item_count,
}
use foundora_ai.Workflows.Definition.{
  Libraries, StepDefinition, step_types, internal_tools, member_of, is_key_text, parse_key,
  parse_retries, parse_type, check_tool, parse_step, parse_steps, check_dependencies, check_cycles,
  parse_items, parse_definition, key_of,
}
use foundora_ai.Workflows.Definition.Ordered.{IsOrdered, check_cycles-IsOrdered}

-- What is checked of one step.
pub record IsValid (lib : Libraries) (step : StepDefinition) : Type 0 where
  pub key :
      (is_empty step.key ≡ false) × (text_length step.key ≤ 80) × (is_key_text lib step.key ≡ true)
  pub step_type : contains step_types step.step_type ≡ true
  pub max_retries : step.max_retries ≤ 10
  pub tool :
      ((step.step_type == "tool") ≡ false)
      ⊎ (member_of internal_tools (get "tool" step.config) ≡ ok true)

parse_key-allowed :
    (lib : Libraries) (j : Option Json) (key : String)
    → parse_key lib j ≡ ok key
    → (is_empty key ≡ false) × (text_length key ≤ 80) × (is_key_text lib key ≡ true)
unfolding parse_key
parse_key-allowed lib j key h = ground arith

parse_type-listed :
    (key : String) (j : Option Json) (t : String)
    → parse_type key j ≡ ok t
    → contains step_types t ≡ true
unfolding parse_type
parse_type-listed key j t h = ground arith

parse_retries-bound : (key : String) (j : Option Json) (n : ℕ) → parse_retries key j ≡ ok n → n ≤ 10
unfolding parse_retries
parse_retries-bound key j n h = ground arith

check_tool-listed :
    (key step_type : String) (config : Fields)
    → check_tool key step_type config ≡ ok tt
    → ((step_type == "tool") ≡ false) ⊎ (member_of internal_tools (get "tool" config) ≡ ok true)
unfolding check_tool
check_tool-listed key step_type config h = elim (Bool-cases (step_type == "tool")) [
  | inr f ↦ inl f
  | inl t ↦ elim (Result-cases (member_of internal_tools (get "tool" config))) [
    | inr (e, bad) ↦ absurd (ground arith)
    | inl (true, good) ↦ inr good
    | inl (false, good) ↦ absurd (ground arith)
  ]
]

-- A step that is parsed, with its key new.
record Parsed (lib : Libraries) (keys : List String) (config : Fields) (step : StepDefinition)
    : Type 0 where
  valid : IsValid lib step
  fresh : contains keys step.key ≡ false

Parsed-of_step :
    (lib : Libraries) (keys : List String) (config : Fields) (step : StepDefinition)
    → parse_step lib keys config ≡ ok step
    → Parsed lib keys config step
unfolding parse_step
Parsed-of_step lib keys config step h =
    let keyed : parse_key lib (get "key" config) ≡ ok step.key = ground arith in
    let fresh : contains keys step.key ≡ false = ground arith in
    let typed : parse_type step.key (get "type" config) ≡ ok step.step_type = ground arith in
    let retried : parse_retries step.key (get "max_retries" config) ≡ ok step.max_retries =
      ground arith in
    let tooled : check_tool step.key step.step_type config ≡ ok tt = ground arith in
    let same : step.config ≡ config = ground arith in
    record {
      valid = record {
        key = parse_key-allowed lib (get "key" config) step.key keyed;
        step_type = parse_type-listed step.key (get "type" config) step.step_type typed;
        max_retries =
            parse_retries-bound step.key (get "max_retries" config) step.max_retries retried;
        tool =
            check_tool-listed step.key step.step_type step.config
              (ap (check_tool step.key step.step_type) same ∙ tooled);
      };
      fresh = fresh;
    }

-- Each key is new among the earlier ones.
abbrev pub AreFresh : List String → List StepDefinition → Type 0
AreFresh keys [] = Unit
AreFresh keys (step ∷ steps) = (contains keys step.key ≡ false) × AreFresh (step.key ∷ keys) steps

parse_steps-IsValid :
    (lib : Libraries) (keys : List String) (items : Items) (steps : List StepDefinition)
    → parse_steps lib keys items ≡ ok steps
    → (length steps ≡ item_count items) × AreFresh keys steps × All (IsValid lib) steps
unfolding parse_steps item_count
parse_steps-IsValid lib keys no_items [] h = (refl, tt, tt)
parse_steps-IsValid lib keys no_items (s ∷ ss) h = absurd (ground arith)
parse_steps-IsValid lib keys (item (object config) rest) steps h =
    elim (Result-cases (parse_step lib keys config)) [
      | inr (e, bad) ↦ absurd (ground arith)
      | inl (step, good) ↦ elim (Result-cases (parse_steps lib (step.key ∷ keys) rest)) [
        | inr (e, bad) ↦ absurd (ground arith)
        | inl (more, fine) ↦
            let p = Parsed-of_step lib keys config step good in
            let (count, fresh, valid) = parse_steps-IsValid lib (step.key ∷ keys) rest more fine in
            let same : (step ∷ more) ≡ steps = ground arith in
            subst
              (λ xs. (length xs ≡ suc (item_count rest)) × AreFresh keys xs × All (IsValid lib) xs)
              same (ap suc count, (p.fresh, fresh), (p.valid, valid))
      ]
    ]
parse_steps-IsValid lib keys (item null rest) steps h = absurd (ground arith)
parse_steps-IsValid lib keys (item (boolean b) rest) steps h = absurd (ground arith)
parse_steps-IsValid lib keys (item (integer n) rest) steps h = absurd (ground arith)
parse_steps-IsValid lib keys (item (negative n) rest) steps h = absurd (ground arith)
parse_steps-IsValid lib keys (item (real r) rest) steps h = absurd (ground arith)
parse_steps-IsValid lib keys (item (string t) rest) steps h = absurd (ground arith)
parse_steps-IsValid lib keys (item (array x) rest) steps h = absurd (ground arith)

-- The dependencies of a step are other steps.
abbrev pub IsLinked : List String → StepDefinition → Type 0
IsLinked keys step =
    (contains step.depends_on step.key ≡ false) × (all (contains keys) step.depends_on ≡ true)

check_dependencies-IsLinked :
    (keys : List String) (steps : List StepDefinition)
    → check_dependencies keys steps ≡ ok tt
    → All (IsLinked keys) steps
unfolding check_dependencies
check_dependencies-IsLinked keys [] h = tt
check_dependencies-IsLinked keys (step ∷ steps) h =
    elim (Bool-cases
      (contains step.depends_on step.key || not (all (contains keys) step.depends_on))) [
        | inl bad ↦ absurd (ground arith)
        | inr good ↦
            ((ground arith, ground arith), check_dependencies-IsLinked keys steps (rw good at h))
      ]

-- A definition that is accepted.
pub record IsSound (lib : Libraries) (steps : List StepDefinition) : Type 0 where
  pub some_step : 0 < length steps
  pub few_steps : length steps ≤ 100
  pub fresh : AreFresh [] steps
  pub valid : All (IsValid lib) steps
  pub linked : All (IsLinked (map key_of steps)) steps
  pub order : List String
  pub ordered : IsOrdered steps order
  pub complete : All (λ key. contains order key ≡ true) (map key_of steps)

parse_items-IsSound :
    (lib : Libraries) (items : Items) (steps : List StepDefinition)
    → 0 < item_count items
    → parse_items lib items ≡ ok steps
    → IsSound lib steps
unfolding parse_items
parse_items-IsSound lib items steps positive h = elim (Bool-cases (ltb 100 (item_count items))) [
  | inl many ↦ absurd (ground arith)
  | inr few ↦ elim (Result-cases (parse_steps lib [] items)) [
    | inr (e, bad) ↦ absurd (ground arith)
    | inl (parsed, good) ↦ elim (Result-cases (check_dependencies (map key_of parsed) parsed)) [
      | inr (e, bad) ↦ absurd (ground arith)
      | inl (u, linked) ↦ elim (Result-cases (check_cycles parsed)) [
        | inr (e, bad) ↦ absurd (ground arith)
        | inl (order, acyclic) ↦
            let (count, fresh, valid) = parse_steps-IsValid lib [] items parsed good in
            let (ordered, complete) = check_cycles-IsOrdered parsed order acyclic in
            let same : parsed ≡ steps = ground arith in
            subst (IsSound lib) same (record {
              some_step = omega (arith, count, positive);
              few_steps = below (item_count items) (length parsed) few count;
              fresh = fresh;
              valid = valid;
              linked = check_dependencies-IsLinked (map key_of parsed) parsed linked;
              order = order;
              ordered = ordered;
              complete = complete;
            })
      ]
    ]
  ]
]
  where
    below : (a b : ℕ) → ltb 100 a ≡ false → b ≡ a → b ≤ 100
    below a b e same = ground arith

-- A definition that the parser accepts has from 1 to 100 steps. Their keys are pairwise distinct, not empty,
-- of at most 80 permitted characters; their types are known, their retries at most 10, their tools on the
-- list; each depends on other steps of the definition only; and there is an order of all keys in which
-- each step comes after those it depends on.
pub parse_definition-IsSound :
    (lib : Libraries) (definition : Fields) (steps : List StepDefinition)
    → parse_definition lib definition ≡ ok steps
    → IsSound lib steps
unfolding parse_definition item_count
parse_definition-IsSound lib definition steps h = elim (Option-cases (get "steps" definition)) [
  | inl missing ↦ absurd (ground arith)
  | inr (array (item first rest), found) ↦
      parse_items-IsSound lib (item first rest) steps (omega arith) (ground arith)
  | inr (other, found) ↦ absurd (ground arith)
]
