-- ===== src/Base/Tables.antt =====
-- Database tables as lists of rows: a row is found by the first match of a key test, and an update
-- writes the row of that key.
use Prim.Native.Nat.{ℕ, ◌+◌}
use mathlib.Core.Path.{◌≡◌, refl, sym, ap, ◌∙◌, subst}
use mathlib.Core.Logic.{inl, inr}
use mathlib.Core.Bool.{Bool, ◌&&◌, true, false, false≢true}
use mathlib.Core.Option.{Option, none, some}
use mathlib.Core.List.{List, [], ◌∷◌, ◌++◌, Memᴰ}
use native.Mathlib.Omega.{arith}
use foundora_ai.Base.Tests.{Eq, ◌==◌, eq-of_beq, eq_self, if◌then◌else◌, Bool-cases}
use foundora_ai.Base.Lists.{All, All-append, All-mono}

and_fst : (b c : Bool) → (b && c) ≡ true → b ≡ true
and_fst true c h = refl
and_fst false c h = h

module _ {ℓ} {A : Type ℓ} where
  abbrev pub find : (A → Bool) → List A → Option A
  find p [] = none
  find p (x ∷ xs) = if p x then some x else find p xs

  abbrev pub put : (A → Bool) → A → List A → List A
  put p a [] = []
  put p a (x ∷ xs) = let rest = put p a xs in if p x then a ∷ xs else x ∷ rest

  abbrev pub filter : (A → Bool) → List A → List A
  filter p [] = []
  filter p (x ∷ xs) = let rest = filter p xs in if p x then x ∷ rest else rest

  abbrev pub sum_of : (A → ℕ) → List A → ℕ
  sum_of f [] = 0
  sum_of f (x ∷ xs) = f x + sum_of f xs

  pub find_sound : (p : A → Bool) (xs : List A) (a : A) → find p xs ≡ some a → p a ≡ true
  find_sound p [] a h = ground arith
  find_sound p (x ∷ xs) a h = ground (arith, find_sound p xs a)

  pub All-of_find-none : (p : A → Bool) (xs : List A) → find p xs ≡ none → All (λ x. p x ≡ false) xs
  All-of_find-none p [] h = tt
  All-of_find-none p (x ∷ xs) h =
      let rest : find p xs ≡ none = ground arith in (ground arith, All-of_find-none p xs rest)

  pub All-find {κ} :
      (P : A → Type κ) (p : A → Bool) (xs : List A) (a : A) → All P xs → find p xs ≡ some a → P a
  All-find P p [] a h e = ground arith
  All-find P p (x ∷ xs) a h e = elim (Bool-cases (p x)) [
    | inl t ↦ let same : x ≡ a = ground arith in rw (sym same) h.0
    | inr f ↦ All-find P p xs a h.1 (ground arith)
  ]

  pub All-put {κ} :
      (P : A → Type κ) (p : A → Bool) (a : A) (xs : List A) → P a → All P xs → All P (put p a xs)
  All-put P p a [] pa h = tt
  All-put P p a (x ∷ xs) pa h = elim (Bool-cases (p x)) [
    | inl t ↦ rw t (pa, h.1)
    | inr f ↦ rw f (h.0, All-put P p a xs pa h.1)
  ]

  pub find-append_none :
      (p : A → Bool) (xs ys : List A) → find p xs ≡ none → find p (xs ++ ys) ≡ find p ys
  find-append_none p [] ys h = refl
  find-append_none p (x ∷ xs) ys h = ground (arith, find-append_none p xs ys)

  pub find-append_some :
      (p : A → Bool) (xs ys : List A) (a : A) → find p xs ≡ some a → find p (xs ++ ys) ≡ some a
  find-append_some p [] ys a h = ground arith
  find-append_some p (x ∷ xs) ys a h = ground (arith, find-append_some p xs ys a)

  -- The row that is written is the row that is found again.
  pub find-put :
      (p : A → Bool) (b : A) (xs : List A) (a : A)
      → p b ≡ true
      → find p xs ≡ some a
      → find p (put p b xs) ≡ some b
  find-put p b [] a pb h = ground arith
  find-put p b (x ∷ xs) a pb h = ground (arith, find-put p b xs a)

  pub sum_of-append : (f : A → ℕ) (xs ys : List A) → sum_of f (xs ++ ys) ≡ sum_of f xs + sum_of f ys
  sum_of-append f [] ys = omega arith
  sum_of-append f (x ∷ xs) ys = omega (arith, sum_of-append f xs ys)

  -- A write exchanges the share of the old row for that of the new one.
  pub sum_of-put :
      (f : A → ℕ) (p : A → Bool) (b : A) (xs : List A) (a : A)
      → find p xs ≡ some a
      → sum_of f (put p b xs) + f a ≡ sum_of f xs + f b
  sum_of-put f p b [] a h = ground arith
  sum_of-put f p b (x ∷ xs) a h = ground (arith, sum_of-put f p b xs a)

  -- No row has the key of an earlier one.
  abbrev pub Distinct {κ} : {K : Type κ} → (A → K) → List A → Type (ℓ ⊔ κ)
  Distinct key [] = Unit
  Distinct key (x ∷ xs) = All (λ y. ¬ (key x ≡ key y)) xs × Distinct key xs

  pub Distinct-append {κ} :
      {K : Type κ} (key : A → K) (xs ys : List A)
      → Distinct key xs
      → Distinct key ys
      → All (λ x. All (λ y. ¬ (key x ≡ key y)) ys) xs
      → Distinct key (xs ++ ys)
  Distinct-append key [] ys hx hy h = hy
  Distinct-append key (x ∷ xs) ys hx hy h =
      (All-append (λ y. ¬ (key x ≡ key y)) xs ys hx.0 h.0, Distinct-append key xs ys hx.1 hy h.1)

  pub find-append_left :
      (p : A → Bool) (xs ys : List A) → ¬ (find p xs ≡ none) → ¬ (find p (xs ++ ys) ≡ none)
  find-append_left p xs ys h e = h (find-append_none_left xs e)
    where
      find-append_none_left : (zs : List A) → find p (zs ++ ys) ≡ none → find p zs ≡ none
      find-append_none_left [] n = refl
      find-append_none_left (z ∷ zs) n =
          let rest : find p (zs ++ ys) ≡ none = ground arith in
          let tail : find p zs ≡ none = find-append_none_left zs rest in ground arith

  pub find-append_last :
      (p : A → Bool) (xs : List A) (a : A) → p a ≡ true → ¬ (find p (xs ++ a ∷ []) ≡ none)
  find-append_last p [] a h e = ground arith
  find-append_last p (x ∷ xs) a h e = elim (Bool-cases (p x)) [
    | inl t ↦ ground arith
    | inr f ↦ find-append_last p xs a h (rw f at e)
  ]

  -- A write under a key keeps what holds of the keys.
  pub All-put_key {κ μ} :
      {K : Type κ} (P : K → Type μ) (key : A → K) (p : A → Bool) (b : A) (xs : List A)
      → ((x : A) → p x ≡ true → key x ≡ key b)
      → All (λ x. P (key x)) xs
      → All (λ x. P (key x)) (put p b xs)
  All-put_key P key p b [] same h = tt
  All-put_key P key p b (x ∷ xs) same h = elim (Bool-cases (p x)) [
    | inl t ↦ rw t (subst P (same x t) h.0, h.1)
    | inr f ↦ rw f (h.0, All-put_key P key p b xs same h.1)
  ]

  pub Distinct-put {κ} :
      {K : Type κ} (key : A → K) (p : A → Bool) (b : A) (xs : List A)
      → ((x : A) → p x ≡ true → key x ≡ key b)
      → Distinct key xs
      → Distinct key (put p b xs)
  Distinct-put key p b [] same h = tt
  Distinct-put key p b (x ∷ xs) same h = elim (Bool-cases (p x)) [
    | inl t ↦ rw t (subst (λ k. All (λ y. ¬ (k ≡ key y)) xs) (same x t) h.0, h.1)
    | inr f ↦
        rw f
          (All-put_key (λ k. ¬ (key x ≡ k)) key p b xs same h.0, Distinct-put key p b xs same h.1)
  ]

  pub All-filter {κ} :
      (P : A → Type κ) (p : A → Bool) (xs : List A) → All P xs → All P (filter p xs)
  All-filter P p [] h = tt
  All-filter P p (x ∷ xs) h = elim (Bool-cases (p x)) [
    | inl t ↦ rw t (h.0, All-filter P p xs h.1)
    | inr f ↦ rw f (All-filter P p xs h.1)
  ]

  pub filter_holds : (p : A → Bool) (xs : List A) → All (λ x. p x ≡ true) (filter p xs)
  filter_holds p [] = tt
  filter_holds p (x ∷ xs) = elim (Bool-cases (p x)) [
    | inl t ↦ rw t (t, filter_holds p xs)
    | inr f ↦ rw f (filter_holds p xs)
  ]

  pub All-of_filter {κ} :
      (P : A → Type κ) (p : A → Bool) (xs : List A)
      → All P (filter p xs)
      → All (λ x. p x ≡ true → P x) xs
  All-of_filter P p [] h = tt
  All-of_filter P p (x ∷ xs) h = elim (Bool-cases (p x)) [
    | inl t ↦ let h' : All P (x ∷ filter p xs) = rw t at h in (λ _. h'.0, All-of_filter P p xs h'.1)
    | inr f ↦ (λ t. absurd (false≢true (sym f ∙ t)), All-of_filter P p xs (rw f at h))
  ]

  pub All-Mem : (xs : List A) → All (λ x. Memᴰ x xs) xs
  All-Mem [] = tt
  All-Mem (x ∷ xs) = (
    Memᴰ.head refl,
    All-mono (λ y. Memᴰ y xs) (λ y. Memᴰ y (x ∷ xs)) xs (λ y m. Memᴰ.tail m) (All-Mem xs),
  )

  -- A written row is found by a narrower test too, if that test found a row before.
  pub find-put_narrow :
      (q p : A → Bool) (b : A) (xs : List A) (a : A)
      → ((x : A) → q x ≡ true → p x ≡ true)
      → q b ≡ true
      → find q xs ≡ some a
      → find q (put p b xs) ≡ some b
  find-put_narrow q p b [] a narrow qb h = ground arith
  find-put_narrow q p b (x ∷ xs) a narrow qb h = elim (Bool-cases (p x)) [
    | inl t ↦ rw t (rw qb)
    | inr f ↦
        let skip : q x ≡ false = ground (arith, narrow x) in
        rw f (rw skip (find-put_narrow q p b xs a narrow qb (rw skip at h)))
  ]

  -- Where keys are distinct, a further test behind the key's does not change which row is found.
  pub find-of_Distinct :
      {K : Type 0} ⦃e : Eq K⦄ (key : A → K) (k : K) (q : A → Bool) (xs : List A) (a : A)
      → Distinct key xs
      → find (λ x. key x == k && q x) xs ≡ some a
      → find (λ x. key x == k) xs ≡ some a
  find-of_Distinct key k q [] a d h = ground arith
  find-of_Distinct key k q (x ∷ xs) a d h = elim (Bool-cases (key x == k)) [
    | inr f ↦ rw f (find-of_Distinct key k q xs a d.1 (rw f at h))
    | inl t ↦ elim (Bool-cases (q x)) [
      | inl u ↦ rw t (rw (t, u) at h)
      | inr v ↦
          let rest : find (λ x. key x == k && q x) xs ≡ some a = rw (t, v) at h in
          let same : (key a == k) ≡ true =
            and_fst (key a == k) (q a) (find_sound (λ x. key x == k && q x) xs a rest) in
          absurd (
            All-find (λ y. ¬ (key x ≡ key y)) (λ x. key x == k && q x) xs a d.0 rest
              (eq-of_beq (key x) k t ∙ sym (eq-of_beq (key a) k same)))
    ]
  ]

  -- A row that is written over the row of its key is found under that key and the same scope.
  pub find-put_scoped :
      {K L : Type 0} ⦃e : Eq K⦄ ⦃d : Eq L⦄ (key : A → K) (scope : A → L) (k : K) (l : L) (b : A)
      (xs : List A) (a : A)
      → key b ≡ key a
      → scope b ≡ scope a
      → find (λ x. key x == k && scope x == l) xs ≡ some a
      → find (λ x. key x == k && scope x == l) (put (λ x. key x == key a) b xs) ≡ some b
  find-put_scoped key scope k l b xs a same_key same_scope found =
      find-put_narrow (λ x. key x == k && scope x == l) (λ x. key x == key a) b xs a narrow
        (ap (λ i. i == k && scope b == l) same_key
          ∙ ap (λ j. key a == k && j == l) same_scope
          ∙ holds)
        found
    where
      holds : (key a == k && scope a == l) ≡ true
      holds = find_sound (λ x. key x == k && scope x == l) xs a found

      narrow : (x : A) → (key x == k && scope x == l) ≡ true → (key x == key a) ≡ true
      narrow x h =
          let this = eq-of_beq (key x) k (and_fst (key x == k) (scope x == l) h) in
          let that = eq-of_beq (key a) k (and_fst (key a == k) (scope a == l) holds) in
          ap (λ i. i == key a) (this ∙ sym that) ∙ eq_self (key a)

  -- A write that the found row's own key selects is found in its place.
  pub find-put_own :
      (q p : A → Bool) (b : A) (xs : List A) (a : A)
      → q b ≡ true
      → p a ≡ true
      → find q xs ≡ some a
      → find q (put p b xs) ≡ some b
  find-put_own q p b [] a qb pa h = ground arith
  find-put_own q p b (x ∷ xs) a qb pa h = elim (Bool-cases (p x)) [
    | inl t ↦ rw t (rw qb refl)
    | inr f ↦ elim (Bool-cases (q x)) [
      | inl u ↦ let same : x ≡ a = ground arith in absurd (false≢true (sym f ∙ ap p same ∙ pa))
      | inr v ↦ rw f (rw v (find-put_own q p b xs a qb pa (rw v at h)))
    ]
  ]

  -- A row that one test finds is there for any other test that it passes.
  pub find-of_found :
      (q p : A → Bool) (xs : List A) (a : A)
      → find q xs ≡ some a
      → p a ≡ true
      → ¬ (find p xs ≡ none)
  find-of_found q p [] a h pa n = ground arith
  find-of_found q p (x ∷ xs) a h pa n = elim (Bool-cases (p x)) [
    | inl t ↦ ground arith
    | inr f ↦ elim (Bool-cases (q x)) [
      | inl u ↦ let same : x ≡ a = ground arith in absurd (false≢true (sym f ∙ ap p same ∙ pa))
      | inr v ↦ find-of_found q p xs a (rw v at h) pa (rw f at n)
    ]
  ]
