-- ===== src/Base/Results.antt =====
-- A database transaction that may raise: an exception drops every write that was made before it,
-- as `async with database.begin()` does, so an error carries no state.
use mathlib.Core.Path.{◌≡◌, refl}
use mathlib.Core.Logic.{◌⊎◌, inl, inr}
use mathlib.Core.Bool.{Bool, true, false}
use mathlib.Core.Option.{Option, none, some}

pub data Result {ℓ κ} (E : Type ℓ) (A : Type κ) : Type (ℓ ⊔ κ) where
  ok : A → Result E A
  err : E → Result E A

abbrev pub Tx : Type 0 → Type 0 → Type 0 → Type 0
Tx E S A = S → Result E (A × S)

module _ {E S : Type 0} where
  abbrev pub pure : {A : Type 0} → A → Tx E S A
  pure a s = ok (a, s)

  abbrev pub raise : {A : Type 0} → E → Tx E S A
  raise e s = err e

  abbrev pub continue : {A B : Type 0} → Result E (A × S) → (A → Tx E S B) → Result E (B × S)
  continue (ok (a, s)) f = f a s
  continue (err e) f = err e

  infixl 10 ◌>>=◌ ◌>>◌
  abbrev pub ◌>>=◌ : {A B : Type 0} → Tx E S A → (A → Tx E S B) → Tx E S B
  ◌>>=◌ m f s = continue (m s) f

  abbrev pub ◌>>◌ : {A B : Type 0} → Tx E S A → Tx E S B → Tx E S B
  m >> n = m >>= λ _. n

  -- `if test: raise e`
  abbrev pub raise_if : Bool → E → Tx E S (Unit {0})
  raise_if true e = raise e
  raise_if false e = pure tt

  -- `if row is None: raise e`
  abbrev pub or_raise : {A : Type 0} → E → Option A → Tx E S A
  or_raise e none = raise e
  or_raise e (some a) = pure a

  abbrev pub gets : {A : Type 0} → (S → A) → Tx E S A
  gets f s = ok (f s, s)

  abbrev pub modify : (S → S) → Tx E S (Unit {0})
  modify f s = ok (tt, f s)

-- To split on a computed result and keep the equation.
pub Result-cases {ℓ κ} :
    {E : Type ℓ} {A : Type κ} (r : Result E A) → ((a : A) × (r ≡ ok a)) ⊎ ((e : E) × (r ≡ err e))
Result-cases (ok a) = inl (a, refl)
Result-cases (err e) = inr (e, refl)

pub ok-injective :
    {E A S : Type 0} {a b : A} {s t : S} (x : Result E (A × S))
    → x ≡ ok (a, s)
    → x ≡ ok (b, t)
    → (a ≡ b) × (s ≡ t)
ok-injective x h k = (cc, cc)
