-- ===== src/Events/Contracts/Schema.antt =====
-- events/contracts.py: `EventContract`, `_schema`, and the property schemas that the contracts share.
use foundora_ai.Base.{
  ℕ, String, false, List, [], ◌∷◌, Keyword, type_is, format, pattern_is, enum, min_length,
  max_length, minimum, Schema,
}

pub record EventContract : Type 0 where
  pub event_type : String
  pub schema_version : ℕ
  pub aggregate_type : String
  pub description : String
  pub payload_schema : Schema

abbrev pub contract : String → ℕ → String → String → Schema → EventContract
contract t v a d s = record {
  event_type = t;
  schema_version = v;
  aggregate_type = a;
  description = d;
  payload_schema = s;
}

-- `_schema`; its "$schema" and "type": "object" are the same for all.
abbrev pub schema : List (String × List Keyword) → List String → Schema
schema properties required = record {
  properties = properties;
  required = required;
  additional_properties = false;
}

abbrev pub uuid_string : List Keyword
uuid_string = type_is ("string" ∷ []) ∷ format "uuid" ∷ []

abbrev pub bounded_string : ℕ → ℕ → List Keyword
bounded_string low high = type_is ("string" ∷ []) ∷ min_length low ∷ max_length high ∷ []

abbrev pub digest : List Keyword
digest = type_is ("string" ∷ []) ∷ pattern_is "^[a-f0-9]{64}$" ∷ []

abbrev pub integer_from : ℕ → List Keyword
integer_from low = type_is ("integer" ∷ []) ∷ minimum low ∷ []

abbrev pub one_of : List String → List Keyword
one_of names = enum names ∷ []
