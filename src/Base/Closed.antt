-- ===== src/Base/Closed.antt =====
-- A row that stays closed while other rows are written and added.
use Prim.Native.Nat.{ℕ, ◌≤◌, ◌<◌}
use mathlib.Core.Path.{◌≡◌, sym, ap, ◌∙◌, subst}
use mathlib.Core.Logic.{inl, inr}
use mathlib.Core.Bool.{Bool, ◌&&◌, true, false, false≢true}
use mathlib.Core.Option.{some}
use mathlib.Core.List.{List, [], ◌∷◌, ◌++◌, map}
use native.Mathlib.Omega.{arith}
use foundora_ai.Base.Tests.{Eq, ◌==◌, nat_eq, eq_self, eq-of_beq, Bool-cases}
use foundora_ai.Base.Lists.{All, All-append, All-mono}
use foundora_ai.Base.Tables.{find, put, find_sound, find-append_some, All-put, All-find, Distinct}

module _ {A : Type 0} (key : A → ℕ) (is_open q : A → Bool) (k : ℕ) where
  -- The row that q finds has the key k, which is no new one, and every row of that key is closed.
  pub record IsClosed (xs : List A) (next : ℕ) : Type 0 where
    pub row : A
    pub found : find q xs ≡ some row
    pub of_key : key row ≡ k
    pub rows : All (λ y. key y ≡ k → is_open y ≡ false) xs
    pub old : k < next

  pub row-IsClosed : (xs : List A) (next : ℕ) (c : IsClosed xs next) → is_open c.row ≡ false
  row-IsClosed xs next c =
      All-find (λ y. key y ≡ k → is_open y ≡ false) q xs c.row c.rows c.found c.of_key

  -- An open row has another key.
  pub apart :
      (r : A → Bool) (xs : List A) (next : ℕ) (a : A)
      → IsClosed xs next
      → find r xs ≡ some a
      → is_open a ≡ true
      → ¬ (key a ≡ k)
  apart r xs next a c found live e =
      false≢true (sym (All-find (λ y. key y ≡ k → is_open y ≡ false) r xs a c.rows found e) ∙ live)

  pub IsClosed-later :
      (xs ys : List A) (next later : ℕ)
      → ys ≡ xs
      → next ≤ later
      → IsClosed xs next
      → IsClosed ys later
  IsClosed-later xs ys next later same le c =
      subst (λ zs. IsClosed zs later) (sym same)
        (record {
          row = c.row;
          found = c.found;
          of_key = c.of_key;
          rows = c.rows;
          old = let o = c.old in omega arith;
        })

  pub IsClosed-insert :
      (xs ys : List A) (a : A) (next later : ℕ)
      → ys ≡ xs ++ a ∷ []
      → ¬ (key a ≡ k)
      → next ≤ later
      → IsClosed xs next
      → IsClosed ys later
  IsClosed-insert xs ys a next later same new le c =
      subst (λ zs. IsClosed zs later) (sym same)
        (record {
          row = c.row;
          found = find-append_some q xs (a ∷ []) c.row c.found;
          of_key = c.of_key;
          rows =
              All-append (λ y. key y ≡ k → is_open y ≡ false) xs (a ∷ []) c.rows
                (λ e. absurd (new e), tt);
          old = let o = c.old in omega arith;
        })

  find-put_apart :
      (xs : List A) (b x : A)
      → ¬ (key b ≡ key x)
      → q b ≡ false
      → find q xs ≡ some x
      → find q (put (λ y. key y == key b) b xs) ≡ some x
  find-put_apart [] b x n miss h = absurd (ground arith)
  find-put_apart (y ∷ ys) b x n miss h = elim (Bool-cases (q y)) [
    | inl t ↦
        let same : y ≡ x = ground arith in
        elim (Bool-cases (key y == key b)) [
          | inl u ↦ absurd (n (sym (eq-of_beq (key y) (key b) u) ∙ ap key same))
          | inr v ↦ rw v (rw t (ap some same))
        ]
    | inr f ↦
        let rest : find q ys ≡ some x = rw f at h in
        elim (Bool-cases (key y == key b)) [
          | inl u ↦ rw u (rw miss rest)
          | inr v ↦ rw v (rw f (find-put_apart ys b x n miss rest))
        ]
  ]

  pub IsClosed-put :
      (xs ys : List A) (b : A) (next later : ℕ)
      → ys ≡ put (λ y. key y == key b) b xs
      → ¬ (key b ≡ k)
      → q b ≡ false
      → next ≤ later
      → IsClosed xs next
      → IsClosed ys later
  IsClosed-put xs ys b next later same n miss le c =
      subst (λ zs. IsClosed zs later) (sym same)
        (record {
          row = c.row;
          found = find-put_apart xs b c.row (λ e. n (e ∙ c.of_key)) miss c.found;
          of_key = c.of_key;
          rows =
              All-put (λ y. key y ≡ k → is_open y ≡ false) (λ y. key y == key b) b xs
                (λ e. absurd (n e)) c.rows;
          old = let o = c.old in omega arith;
        })

  find-map :
      (f : A → A) (xs : List A) (x : A)
      → ((y : A) → q (f y) ≡ q y)
      → find q xs ≡ some x
      → find q (map f xs) ≡ some (f x)
  find-map f [] x same h = absurd (ground arith)
  find-map f (y ∷ ys) x same h = elim (Bool-cases (q y)) [
    | inl t ↦ let this : y ≡ x = ground arith in rw (same y, t) (ap (λ z. some (f z)) this)
    | inr v ↦ rw (same y, v) (find-map f ys x same (rw v at h))
  ]

  All-map :
      (f : A → A) (xs : List A)
      → ((y : A) → key (f y) ≡ key y)
      → ((y : A) → is_open y ≡ false → is_open (f y) ≡ false)
      → All (λ y. key y ≡ k → is_open y ≡ false) xs
      → All (λ y. key y ≡ k → is_open y ≡ false) (map f xs)
  All-map f [] same closes h = tt
  All-map f (y ∷ ys) same closes h =
      (λ e. closes y (h.0 (sym (same y) ∙ e)), All-map f ys same closes h.1)

  pub IsClosed-map :
      (f : A → A) (xs ys : List A) (next later : ℕ)
      → ys ≡ map f xs
      → ((y : A) → key (f y) ≡ key y)
      → ((y : A) → q (f y) ≡ q y)
      → ((y : A) → is_open y ≡ false → is_open (f y) ≡ false)
      → next ≤ later
      → IsClosed xs next
      → IsClosed ys later
  IsClosed-map f xs ys next later same same_key same_test closes le c =
      subst (λ zs. IsClosed zs later) (sym same)
        (record {
          row = f c.row;
          found = find-map f xs c.row same_test c.found;
          of_key = same_key c.row ∙ c.of_key;
          rows = All-map f xs same_key closes c.rows;
          old = let o = c.old in omega arith;
        })

module _ {A : Type 0} (key : A → ℕ) where
  -- Where keys are distinct, the row that is found is the one of its key.
  pub rows-of_found :
      (r : A → Bool) (xs : List A) (x : A)
      → Distinct key xs
      → find r xs ≡ some x
      → All (λ y. key y ≡ key x → y ≡ x) xs
  rows-of_found r [] x d h = tt
  rows-of_found r (y ∷ ys) x d h = elim (Bool-cases (r y)) [
    | inl t ↦
        let same : y ≡ x = ground arith in
        (
          λ e. same,
          All-mono (λ z. ¬ (key y ≡ key z)) (λ z. key z ≡ key x → z ≡ x) ys
              (λ z n e. absurd (n (ap key same ∙ sym e))) d.0,
        )
    | inr f ↦
        let rest : find r ys ≡ some x = rw f at h in
        (
          λ e. absurd (All-find (λ z. ¬ (key y ≡ key z)) r ys x d.0 rest e),
          rows-of_found r ys x d.1 rest,
        )
  ]

  -- Where keys are distinct, a closed row that is written is the one of its key.
  pub closed-put :
      (is_open : A → Bool) (k : ℕ) (b : A) (xs : List A)
      → is_open b ≡ false
      → Distinct key xs
      → All (λ y. key y ≡ k → is_open y ≡ false) (put (λ y. key y == k) b xs)
  closed-put is_open k b [] shut d = tt
  closed-put is_open k b (y ∷ ys) shut d = elim (Bool-cases (key y == k)) [
    | inl t ↦ rw t (
      λ e. shut,
      All-mono (λ z. ¬ (key y ≡ key z)) (λ z. key z ≡ k → is_open z ≡ false) ys
          (λ z n e. absurd (n (eq-of_beq (key y) k t ∙ sym e))) d.0,
    )
    | inr f ↦ rw f (
      λ e. absurd (false≢true (sym f ∙ ap (λ i. i == k) e ∙ eq_self k)),
      closed-put is_open k b ys shut d.1,
    )
  ]

-- The keys of a row that was looked for by them.
pub keys_of_found :
    {A K L : Type 0} ⦃e : Eq K⦄ ⦃d : Eq L⦄ (key : A → K) (scope : A → L) (k : K) (l : L)
    (xs : List A) (a : A)
    → find (λ x. key x == k && scope x == l) xs ≡ some a
    → (key a ≡ k) × (scope a ≡ l)
keys_of_found key scope k l xs a found =
    let both = find_sound (λ x. key x == k && scope x == l) xs a found in
    elim (Bool-cases (key a == k)) [
      | inr f ↦ absurd (ground arith)
      | inl t ↦ (eq-of_beq (key a) k t, eq-of_beq (scope a) l (rw t at both))
    ]
