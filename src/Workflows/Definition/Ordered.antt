-- ===== src/Workflows/Definition/Ordered.antt =====
-- The search for a cycle: what it accepts can be ordered, and its nested calls are enough.
use foundora_ai.Base.{
  ℕ, zero, suc, ◌≡◌, inl, inr, refl, subst, arith, String, true, List, [], ◌∷◌, Result, ok, err,
  string_eq, eq_self, if◌then◌else◌, length, contains, map, All, Bool-cases, Result-cases,
}
use foundora_ai.Base.Fallible.{◌>>=◌}
use foundora_ai.Workflows.Definition.{
  StepDefinition, DefinitionError, cycle_found, dependencies_of, finish_visit, visit_each,
  check_cycles, key_of,
}

-- Each key of the order comes after the keys that its step depends on; the last one is first.
abbrev pub IsOrdered : List StepDefinition → List String → Type 0
IsOrdered steps [] = Unit
IsOrdered steps (key ∷ earlier) =
    ((needed : List String) × (dependencies_of steps key ≡ ok needed)
      × All (λ d. contains earlier d ≡ true) needed)
    × IsOrdered steps earlier

-- What a visit of keys leaves: more keys in order, and among them the visited.
record Extended (steps : List StepDefinition) (visited keys next : List String) : Type 0 where
  ordered : IsOrdered steps next
  kept : (d : String) → contains visited d ≡ true → contains next d ≡ true
  covered : All (λ d. contains next d ≡ true) keys

-- One key, visited.
record Visited (steps : List StepDefinition) (visited : List String) (key : String)
    (next : List String) : Type 0 where
  ordered : IsOrdered steps next
  kept : (d : String) → contains visited d ≡ true → contains next d ≡ true
  reached : contains next key ≡ true

contains-head : (x : String) (xs : List String) → contains (x ∷ xs) x ≡ true
contains-head x xs = rw (eq_self x) refl

contains-tail :
    (x y : String) (xs : List String) → contains xs y ≡ true → contains (x ∷ xs) y ≡ true
contains-tail x y xs h = ground arith

abbrev pub visit_one :
    ℕ
    → List StepDefinition
    → List String
    → List String
    → String
    → Result DefinitionError (List String)
visit_one fuel steps visiting visited key =
    if contains visiting key
    then err cycle_found
    else if contains visited key
    then ok visited
    else dependencies_of steps key >>= λ needed.
        finish_visit key (visit_each fuel steps (key ∷ visiting) visited needed)

Visited-of_inner :
    (fuel : ℕ) (steps : List StepDefinition) (visiting visited : List String) (key : String)
    (next : List String)
    → ((needed inner : List String)
        → visit_each fuel steps (key ∷ visiting) visited needed ≡ ok inner
        → Extended steps visited needed inner)
    → IsOrdered steps visited
    → visit_one fuel steps visiting visited key ≡ ok next
    → Visited steps visited key next
Visited-of_inner fuel steps visiting visited key next inner ordered h =
    elim (Bool-cases (contains visiting key)) [
      | inl t ↦ absurd (ground arith)
      | inr f ↦ elim (Bool-cases (contains visited key)) [
        | inl seen ↦
            let same : visited ≡ next = ground arith in
            subst (Visited steps visited key) same
              (record { ordered = ordered; kept = λ d e. e; reached = seen })
        | inr new ↦ elim (Result-cases (dependencies_of steps key)) [
          | inr (e, bad) ↦ absurd (ground arith)
          | inl (needed, known) ↦
              elim (Result-cases (visit_each fuel steps (key ∷ visiting) visited needed)) [
                | inr (e, bad) ↦ absurd (ground arith)
                | inl (found, good) ↦
                    let x = inner needed found good in
                    let same : (key ∷ found) ≡ next = ground arith in
                    subst (Visited steps visited key) same (record {
                      ordered = ((needed, known, x.covered), x.ordered);
                      kept = λ d e. contains-tail key d found (x.kept d e);
                      reached = contains-head key found;
                    })
              ]
        ]
      ]
    ]

visit_each-Extended :
    (fuel : ℕ) (steps : List StepDefinition) (visiting visited keys next : List String)
    → IsOrdered steps visited
    → visit_each fuel steps visiting visited keys ≡ ok next
    → Extended steps visited keys next
unfolding visit_each
visit_each-Extended fuel steps visiting visited [] next ordered h =
    let same : visited ≡ next = ground arith in
    subst (Extended steps visited []) same
      (record { ordered = ordered; kept = λ d e. e; covered = tt })
visit_each-Extended zero steps visiting visited (key ∷ keys) next ordered h = absurd (ground arith)
visit_each-Extended (suc fuel) steps visiting visited (key ∷ keys) next ordered h =
    elim (Result-cases (visit_one fuel steps visiting visited key)) [
      | inr (e, bad) ↦ absurd (ground arith)
      | inl (middle, good) ↦
          let v =
            Visited-of_inner fuel steps visiting visited key middle
              (λ needed inner e.
                visit_each-Extended fuel steps (key ∷ visiting) visited needed inner ordered e)
              ordered good in
          let rest =
            visit_each-Extended (suc fuel) steps visiting middle keys next v.ordered
              (rw good at h) in
          record {
            ordered = rest.ordered;
            kept = λ d e. rest.kept d (v.kept d e);
            covered = (rest.kept key v.reached, rest.covered);
          }
    ]

-- A check that succeeds gives an order that holds the key of every step and puts each key after all keys
-- that its step depends on, so the dependencies close no cycle.
pub check_cycles-IsOrdered :
    (steps : List StepDefinition) (order : List String)
    → check_cycles steps ≡ ok order
    → IsOrdered steps order × All (λ d. contains order d ≡ true) (map key_of steps)
unfolding check_cycles
check_cycles-IsOrdered steps order h =
    let x = visit_each-Extended (suc (length steps)) steps [] [] (map key_of steps) order tt h in
    (x.ordered, x.covered)
