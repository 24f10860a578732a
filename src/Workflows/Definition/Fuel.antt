-- ===== src/Workflows/Definition/Fuel.antt =====
-- The nested calls of the search for a cycle are at most one for each step.
use foundora_ai.Base.{
  ℕ, zero, suc, ◌+◌, ◌≤◌, ◌≡◌, inl, inr, refl, sym, ap, ◌∙◌, arith, String, Bool, true, false, List,
  [], ◌∷◌, Result, ok, err, ◌==◌, string_eq, eq-of_beq, eq_self, if◌then◌else◌, length, contains,
  map, All, Bool-cases, Result-cases,
}
use foundora_ai.Workflows.Definition.{
  StepDefinition, DefinitionError, out_of_fuel, dependencies_of, finish_visit, visit_each,
  check_cycles, key_of,
}
use foundora_ai.Workflows.Definition.Ordered.{visit_one}

remove : String → List String → List String
remove x [] = []
remove x (y ∷ ys) = let rest = remove x ys in if x == y then ys else y ∷ rest

length-remove :
    (x : String) (ys : List String) → contains ys x ≡ true → length ys ≡ suc (length (remove x ys))
unfolding remove
length-remove x [] h = absurd (ground arith)
length-remove x (y ∷ ys) h = elim (Bool-cases (x == y)) [
  | inl t ↦ rw t refl
  | inr f ↦ rw f (ap suc (length-remove x ys (rw f at h)))
]

contains-remove :
    (x z : String) (ys : List String)
    → (z == x) ≡ false
    → contains ys z ≡ true
    → contains (remove x ys) z ≡ true
unfolding remove
contains-remove x z [] n h = absurd (ground arith)
contains-remove x z (y ∷ ys) n h = elim (Bool-cases (x == y)) [
  | inl t ↦
      let same : x ≡ y = eq-of_beq x y t in
      let other : (z == y) ≡ false = ap (λ w. z == w) (sym same) ∙ n in rw t (rw other at h)
  | inr f ↦ elim (Bool-cases (z == y)) [
    | inl u ↦ rw f (rw u refl)
    | inr v ↦ rw f (rw v (contains-remove x z ys n (rw v at h)))
  ]
]

-- No text stands in the list twice.
abbrev IsDistinct : List String → Type 0
IsDistinct [] = Unit
IsDistinct (x ∷ xs) = (contains xs x ≡ false) × IsDistinct xs

All-contains-remove :
    (x : String) (xs ys : List String)
    → contains xs x ≡ false
    → All (λ z. contains ys z ≡ true) xs
    → All (λ z. contains (remove x ys) z ≡ true) xs
All-contains-remove x [] ys n h = tt
All-contains-remove x (z ∷ xs) ys n h = elim (Bool-cases (x == z)) [
  | inl t ↦ absurd (ground arith)
  | inr f ↦
      (contains-remove x z ys (sym_test x z f) h.0, All-contains-remove x xs ys (rw f at n) h.1)
]
  where
    sym_test : (a b : String) → (a == b) ≡ false → (b == a) ≡ false
    sym_test a b e = elim (Bool-cases (b == a)) [
      | inl t ↦
          let same : b ≡ a = eq-of_beq b a t in
          let self : (a == b) ≡ true = ap (λ w. a == w) same ∙ eq_self a in absurd (ground arith)
      | inr f ↦ f
    ]

-- Distinct texts of a list are no more than it holds.
length-of_IsDistinct :
    (xs ys : List String)
    → IsDistinct xs
    → All (λ z. contains ys z ≡ true) xs
    → length xs ≤ length ys
length-of_IsDistinct [] ys d h = omega arith
length-of_IsDistinct (x ∷ xs) ys d h = omega (
  arith,
  length-remove x ys h.0,
  length-of_IsDistinct xs (remove x ys) d.1 (All-contains-remove x xs ys d.0 h.1),
)

dependencies_of-known :
    (steps : List StepDefinition) (key : String) (needed : List String)
    → dependencies_of steps key ≡ ok needed
    → contains (map key_of steps) key ≡ true
unfolding dependencies_of
dependencies_of-known [] key needed h = absurd (ground arith)
dependencies_of-known (step ∷ steps) key needed h = elim (Bool-cases (step.key == key)) [
  | inl t ↦ let same = eq-of_beq step.key key t in rw (ap (λ w. key == w) same ∙ eq_self key) refl
  | inr f ↦ let rest = dependencies_of-known steps key needed (rw f at h) in ground arith
]

length-map : (steps : List StepDefinition) → length (map key_of steps) ≡ length steps
length-map [] = refl
length-map (step ∷ steps) = ap suc (length-map steps)

abbrev pub ran_out {ℓ} : {A : Type ℓ} → Result DefinitionError A → Bool
ran_out (err out_of_fuel) = true
ran_out _ = false

-- The keys that are being visited, and the fuel left.
record Nested (fuel : ℕ) (steps : List StepDefinition) (visiting : List String) : Type 0 where
  distinct : IsDistinct visiting
  known : All (λ z. contains (map key_of steps) z ≡ true) visiting
  enough : length visiting + fuel ≡ suc (length steps)

dependencies_of-runs :
    (steps : List StepDefinition) (key : String) → ran_out (dependencies_of steps key) ≡ false
unfolding dependencies_of
dependencies_of-runs [] key = refl
dependencies_of-runs (step ∷ steps) key = elim (Bool-cases (step.key == key)) [
  | inl t ↦ rw t refl
  | inr f ↦ rw f (dependencies_of-runs steps key)
]

finish-runs :
    (key : String) (r : Result DefinitionError (List String))
    → ran_out r ≡ false
    → ran_out (finish_visit key r) ≡ false
finish-runs key (ok v) h = refl
finish-runs key (err e) h = ran_out_err e h
  where
    ran_out_err :
        (d : DefinitionError)
        → ran_out {A = List String} (err d) ≡ false
        → ran_out {A = List String} (err d) ≡ false
    ran_out_err d k = k

visit_one-runs :
    (fuel : ℕ) (steps : List StepDefinition) (visiting visited : List String) (key : String)
    → ((needed : List String)
        → Nested fuel steps (key ∷ visiting)
        → ran_out (visit_each fuel steps (key ∷ visiting) visited needed) ≡ false)
    → Nested (suc fuel) steps visiting
    → ran_out (visit_one fuel steps visiting visited key) ≡ false
visit_one-runs fuel steps visiting visited key inner n = elim (Bool-cases (contains visiting key)) [
  | inl t ↦ rw t refl
  | inr f ↦ elim (Bool-cases (contains visited key)) [
    | inl seen ↦ rw f (rw seen refl)
    | inr new ↦ elim (Result-cases (dependencies_of steps key)) [
      | inr (e, bad) ↦
          let runs : ran_out (dependencies_of steps key) ≡ false = dependencies_of-runs steps key in
          rw f (rw new (rw bad (rw bad at runs)))
      | inl (needed, good) ↦ rw f (
          rw new (
            rw good (
              finish-runs key _ (
                inner needed (record {
                  distinct = (f, n.distinct);
                  known = (dependencies_of-known steps key needed good, n.known);
                  enough = omega (arith, n.enough);
                })))))
    ]
  ]
]

visit_each-runs :
    (fuel : ℕ) (steps : List StepDefinition) (visiting visited keys : List String)
    → Nested fuel steps visiting
    → ran_out (visit_each fuel steps visiting visited keys) ≡ false
unfolding visit_each
visit_each-runs fuel steps visiting visited [] n = refl
visit_each-runs zero steps visiting visited (key ∷ keys) n =
    let few = length-of_IsDistinct visiting (map key_of steps) n.distinct n.known in
    absurd (ground (arith, few, length-map steps, n.enough))
visit_each-runs (suc fuel) steps visiting visited (key ∷ keys) n =
    let one =
      visit_one-runs fuel steps visiting visited key
        (λ needed m. visit_each-runs fuel steps (key ∷ visiting) visited needed m) n in
    elim (Result-cases (visit_one fuel steps visiting visited key)) [
      | inl (next, good) ↦ rw good (visit_each-runs (suc fuel) steps visiting next keys n)
      | inr (e, bad) ↦ rw bad (rw bad at one)
    ]

-- The search for a cycle never runs out of nested calls: it ends with an order or an error of the source,
-- whatever the steps.
pub check_cycles-runs : (steps : List StepDefinition) → ran_out (check_cycles steps) ≡ false
unfolding check_cycles
check_cycles-runs steps =
    visit_each-runs (suc (length steps)) steps [] [] (map key_of steps)
      (record { distinct = tt; known = tt; enough = omega arith })
