-- ===== src/Base/Sorting.antt =====
-- ORDER BY and LIMIT: a stable sort by an order of rows, and the first rows of a list.
use Prim.Native.Nat.{ℕ, zero, suc, ◌≤◌}
use mathlib.Core.Path.{◌≡◌}
use mathlib.Core.Logic.{inl, inr}
use mathlib.Core.Bool.{Bool, true, false}
use mathlib.Core.List.{List, [], ◌∷◌}
use native.Mathlib.Omega.{arith}
use foundora_ai.Base.Tests.{if◌then◌else◌, Bool-cases}
use foundora_ai.Base.Lists.{length, All, All-mono}

module _ {ℓ} {A : Type ℓ} where
  -- `before x y`: x may stand before y. Rows that are equal in the order keep theirs.
  unfoldable pub insert_by : (A → A → Bool) → A → List A → List A
  insert_by before x [] = x ∷ []
  insert_by before x (y ∷ ys) =
      let later = insert_by before x ys in if before x y then x ∷ y ∷ ys else y ∷ later

  unfoldable pub sort_by : (A → A → Bool) → List A → List A
  sort_by before [] = []
  sort_by before (x ∷ xs) = insert_by before x (sort_by before xs)

  unfoldable pub take : ℕ → List A → List A
  take zero xs = []
  take (suc n) [] = []
  take (suc n) (x ∷ xs) = x ∷ take n xs

  All-insert_by {κ} :
      (P : A → Type κ) (before : A → A → Bool) (y : A) (ys : List A)
      → P y
      → All P ys
      → All P (insert_by before y ys)
  unfolding insert_by
  All-insert_by P before y [] py h = (py, tt)
  All-insert_by P before y (z ∷ zs) py h = elim (Bool-cases (before y z)) [
    | inl t ↦ rw t (py, h)
    | inr f ↦ rw f (h.0, All-insert_by P before y zs py h.1)
  ]

  pub All-sort_by {κ} :
      (P : A → Type κ) (before : A → A → Bool) (xs : List A) → All P xs → All P (sort_by before xs)
  unfolding sort_by
  All-sort_by P before [] h = tt
  All-sort_by P before (x ∷ xs) h =
      All-insert_by P before x (sort_by before xs) h.0 (All-sort_by P before xs h.1)

  pub All-take {κ} : (P : A → Type κ) (n : ℕ) (xs : List A) → All P xs → All P (take n xs)
  unfolding take
  All-take P zero xs h = tt
  All-take P (suc n) [] h = tt
  All-take P (suc n) (x ∷ xs) h = (h.0, All-take P n xs h.1)

  pub length-take : (n : ℕ) (xs : List A) → length (take n xs) ≤ n
  unfolding take
  length-take zero xs = omega arith
  length-take (suc n) [] = omega arith
  length-take (suc n) (x ∷ xs) = omega (arith, length-take n xs)

  -- Each row may stand before every later one.
  abbrev pub Sorted : (A → A → Bool) → List A → Type ℓ
  Sorted before [] = Unit
  Sorted before (x ∷ xs) = All (λ y. before x y ≡ true) xs × Sorted before xs

  -- A total order of rows: one of two rows may stand before the other, and it is transitive.
  pub record IsOrder (before : A → A → Bool) : Type ℓ where
    pub total : (x y : A) → before x y ≡ false → before y x ≡ true
    pub transitive : (x y z : A) → before x y ≡ true → before y z ≡ true → before x z ≡ true

  insert_by-Sorted :
      (before : A → A → Bool)
      → IsOrder before
      → (x : A) (xs : List A) → Sorted before xs
      → Sorted before (insert_by before x xs)
  unfolding insert_by
  insert_by-Sorted before o x [] h = (tt, tt)
  insert_by-Sorted before o x (y ∷ ys) h = elim (Bool-cases (before x y)) [
    | inl t ↦ rw t (
      (
        t,
        All-mono (λ z. before y z ≡ true) (λ z. before x z ≡ true) ys
            (λ z b. o.transitive x y z t b) h.0,
      ),
      h,
    )
    | inr f ↦ rw f (
      All-insert_by (λ z. before y z ≡ true) before x ys (o.total x y f) h.0,
      insert_by-Sorted before o x ys h.1,
    )
  ]

  pub sort_by-Sorted :
      (before : A → A → Bool) (xs : List A) → IsOrder before → Sorted before (sort_by before xs)
  unfolding sort_by
  sort_by-Sorted before [] o = tt
  sort_by-Sorted before (x ∷ xs) o =
      insert_by-Sorted before o x (sort_by before xs) (sort_by-Sorted before xs o)

  pub take-Sorted :
      (before : A → A → Bool) (n : ℕ) (xs : List A) → Sorted before xs → Sorted before (take n xs)
  unfolding take
  take-Sorted before zero xs h = tt
  take-Sorted before (suc n) [] h = tt
  take-Sorted before (suc n) (x ∷ xs) h =
      (All-take (λ y. before x y ≡ true) n xs h.0, take-Sorted before n xs h.1)
