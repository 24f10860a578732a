-- ===== src/Base/Values.antt =====
-- The scalar types of the rows. A UUID is kept as the number that `uuid.uuid4()` drew from the
-- supply; an aware datetime as its microseconds since the epoch, in UTC.
use Prim.Native.Nat.{ℕ}
use Prim.Native.String.{String}
use mathlib.Core.Bool.{Bool, true, false, not, ◌&&◌}
use mathlib.Core.List.{List, [], ◌∷◌}
use mathlib.Core.Path.{◌≡◌, refl}
use mathlib.Core.Bool.{◌||◌}
use native.Mathlib.Omega.{arith}
use foundora_ai.Base.Tests.{◌==◌, eq_self, nat_eq, string_eq}
use foundora_ai.Base.Lists.{length}

abbrev pub Uuid : Type 0
Uuid = ℕ

abbrev pub Datetime : Type 0
Datetime = ℕ

-- The values that the services put into JSON columns.
pub data Value : Type 0 where
  null : Value
  flag : Bool → Value
  number : ℕ → Value
  text : String → Value

-- A JSON object of such values, as it is written out in the source.
abbrev pub Details : Type 0
Details = List (String × Value)

abbrev bool_beq : Bool → Bool → Bool
bool_beq true b = b
bool_beq false b = not b

abbrev value_beq : Value → Value → Bool
value_beq null null = true
value_beq (flag a) (flag b) = bool_beq a b
value_beq (number a) (number b) = a == b
value_beq (text a) (text b) = a == b
value_beq _ _ = false

abbrev has_entry : Details → String → Value → Bool
has_entry [] key value = false
has_entry ((k, v) ∷ d) key value = (k == key && value_beq v value) || has_entry d key value

abbrev entries_in : Details → Details → Bool
entries_in [] d = true
entries_in ((k, v) ∷ e) d = has_entry d k v && entries_in e d

-- Python's `==` on two objects, which forgets the order of the keys. The keys of an object are
-- distinct.
unfoldable pub same_object : Details → Details → Bool
same_object a b = length a == length b && entries_in a b

value_beq_self : (v : Value) → value_beq v v ≡ true
value_beq_self null = refl
value_beq_self (flag true) = refl
value_beq_self (flag false) = refl
value_beq_self (number a) = eq_self a
value_beq_self (text a) = eq_self a

has_entry_cons :
    (d : Details) (k key : String) (v value : Value)
    → has_entry d key value ≡ true
    → has_entry ((k, v) ∷ d) key value ≡ true
has_entry_cons d k key v value h = ground arith

entries_in_cons :
    (e d : Details) (k : String) (v : Value)
    → entries_in e d ≡ true
    → entries_in e ((k, v) ∷ d) ≡ true
entries_in_cons [] d k v h = refl
entries_in_cons ((j, w) ∷ e) d k v h =
    ground (arith, has_entry_cons d k j v w, entries_in_cons e d k v)

entries_in_self : (d : Details) → entries_in d d ≡ true
entries_in_self [] = refl
entries_in_self ((k, v) ∷ d) =
    ground (arith, eq_self k, value_beq_self v, entries_in_cons d d k v (entries_in_self d))

pub same_object_self : (d : Details) → same_object d d ≡ true
unfolding same_object
same_object_self d = ground (arith, entries_in_self d, eq_self (length d))

-- A keyword of a JSON schema with its argument; a schema of an object as `_schema` of
-- events/contracts.py builds it. What they accept is the validator's business.
pub data Keyword : Type 0 where
  type_is : List String → Keyword
  format : String → Keyword
  pattern_is : String → Keyword
  enum : List String → Keyword
  const : Value → Keyword
  min_length max_length minimum maximum : ℕ → Keyword

pub record Schema : Type 0 where
  pub properties : List (String × List Keyword)
  pub required : List String
  pub additional_properties : Bool

-- What the services use of code that is not theirs: how a UUID is spelled, the JSON schema
-- validator's verdict on a payload, a text cut at a bound, and the bytes of an object's compact
-- JSON, and the correlation id of the request that is served, "-" when none is set.
pub record External : Type 0 where
  pub uuid_text : Uuid → String
  pub payload_valid : Schema → Details → Bool
  pub truncate : ℕ → String → String
  pub json_size : Details → ℕ
  pub correlation : String
