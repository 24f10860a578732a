-- ===== src/Tasks/Cycle/Search.antt =====
-- What the search for a cycle finds.
use foundora_ai.Base.{
  ℕ, suc, ◌+◌, ◌≡◌, ◌⊎◌, inl, inr, refl, sym, subst, ap, ◌∙◌, arith, true, false, List, [], ◌∷◌,
  contains, ◌==◌, nat_eq, eq_self, eq-of_beq, Bool-cases, if◌then◌else◌, length, Uuid,
}
use foundora_ai.Tasks.Model.{TaskDependency}
use foundora_ai.Tasks.Cycle.{outgoing, extend}

abbrev pub Among : {A : Type 0} → A → List A → Type 0
Among x [] = ⊥
Among x (y ∷ ys) = (x ≡ y) ⊎ Among x ys

-- The edges are the rows of the table, and a task reaches another along them.
pub data Reaches (pairs : List TaskDependency) (to : Uuid) : Uuid → Type 0 where
  arrived : Reaches pairs to to
  along :
      (d : TaskDependency)
      → Among d pairs
      → Reaches pairs to d.depends_on_task_id
      → Reaches pairs to d.task_id

pub Among-extend :
    (x : Uuid) (pending found : List Uuid)
    → Among x (extend pending found)
    → Among x found ⊎ Among x pending
unfolding extend
Among-extend x pending [] h = inr h
Among-extend x pending (y ∷ found) h = elim (Among-extend x (y ∷ pending) found h) [
  | inl m ↦ inl (inr m)
  | inr (inl e) ↦ inl (inl e)
  | inr (inr m) ↦ inr m
]

pub extend-Among :
    (x : Uuid) (pending found : List Uuid)
    → Among x found ⊎ Among x pending
    → Among x (extend pending found)
unfolding extend
extend-Among x pending [] (inl m) = absurd m
extend-Among x pending [] (inr m) = m
extend-Among x pending (y ∷ found) (inl (inl e)) = extend-Among x (y ∷ pending) found (inr (inl e))
extend-Among x pending (y ∷ found) (inl (inr m)) = extend-Among x (y ∷ pending) found (inl m)
extend-Among x pending (y ∷ found) (inr m) = extend-Among x (y ∷ pending) found (inr (inr m))

pub length-extend :
    (pending found : List Uuid) → length (extend pending found) ≡ length found + length pending
unfolding extend
length-extend pending [] = omega arith
length-extend pending (y ∷ found) = omega (arith, length-extend (y ∷ pending) found)

pub contains-Among : (xs : List Uuid) (x : Uuid) → contains xs x ≡ true → Among x xs
contains-Among [] x h = absurd (ground arith)
contains-Among (y ∷ ys) x h = elim (Bool-cases (x == y)) [
  | inl t ↦ inl (eq-of_beq x y t)
  | inr f ↦ inr (contains-Among ys x (rw f at h))
]

-- A successor that the search reads is an edge of the table, and the other way round.
pub outgoing-edge :
    (x y : Uuid) (pairs : List TaskDependency)
    → Among y (outgoing x pairs)
    → (d : TaskDependency) × Among d pairs × (d.task_id ≡ x) × (d.depends_on_task_id ≡ y)
unfolding outgoing
outgoing-edge x y [] h = absurd h
outgoing-edge x y (d ∷ ds) h = elim (Bool-cases (d.task_id == x)) [
  | inr f ↦ later (outgoing-edge x y ds (rw f at h))
  | inl t ↦ elim (split (rw t at h)) [
    | inl e ↦ (d, inl refl, eq-of_beq d.task_id x t, sym e)
    | inr m ↦ later (outgoing-edge x y ds m)
  ]
]
  where
    later :
        (d' : TaskDependency) × Among d' ds × (d'.task_id ≡ x) × (d'.depends_on_task_id ≡ y)
        → (d' : TaskDependency) × Among d' (d ∷ ds) × (d'.task_id ≡ x) × (d'.depends_on_task_id ≡ y)
    later (d', m, source, target) = (d', inr m, source, target)

    split :
        (y ≡ d.depends_on_task_id) ⊎ Among y (outgoing x ds)
        → (y ≡ d.depends_on_task_id) ⊎ Among y (outgoing x ds)
    split h' = h'

pub edge-outgoing :
    (d : TaskDependency) (pairs : List TaskDependency)
    → Among d pairs
    → Among d.depends_on_task_id (outgoing d.task_id pairs)
unfolding outgoing
edge-outgoing d [] h = absurd h
edge-outgoing d (c ∷ cs) (inl e) =
    subst (λ (k : TaskDependency). Among d.depends_on_task_id (outgoing d.task_id (k ∷ cs))) e
      (rw (eq_self d.task_id) (inl refl))
edge-outgoing d (c ∷ cs) (inr m) = elim (Bool-cases (c.task_id == d.task_id)) [
  | inl t ↦ rw t (inr (edge-outgoing d cs m))
  | inr f ↦ rw f (edge-outgoing d cs m)
]

-- The pairs whose source the search has not seen.
unfoldable pub weight : List Uuid → List TaskDependency → ℕ
weight seen [] = 0
weight seen (d ∷ ds) =
    let rest = weight seen ds in if contains seen d.task_id then rest else suc rest

pub weight_nil : (pairs : List TaskDependency) → weight [] pairs ≡ length pairs
unfolding weight
weight_nil [] = refl
weight_nil (d ∷ ds) = ap suc (weight_nil ds)

-- What the search of a task adds to `pending` it takes from the unseen pairs.
pub weight-cons :
    (current : Uuid) (seen : List Uuid) (pairs : List TaskDependency)
    → contains seen current ≡ false
    → length (outgoing current pairs) + weight (current ∷ seen) pairs ≡ weight seen pairs
unfolding weight outgoing
weight-cons current seen [] new = refl
weight-cons current seen (d ∷ ds) new = elim (Bool-cases (d.task_id == current)) [
  | inl t ↦
      let unseen : contains seen d.task_id ≡ false =
        ap (contains seen) (eq-of_beq d.task_id current t) ∙ new in
      rw (t, unseen) (omega (arith, weight-cons current seen ds new))
  | inr f ↦ elim (Bool-cases (contains seen d.task_id)) [
    | inl u ↦ rw (f, u) (weight-cons current seen ds new)
    | inr v ↦ rw (f, v) (omega (arith, weight-cons current seen ds new))
  ]
]
