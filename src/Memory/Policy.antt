-- ===== src/Memory/Policy.antt =====
-- `update_policy` of memory/service.py.
use foundora_ai.Base.{
  ℕ, ◌+◌, String, not, Option, none, some, List, [], ◌∷◌, ◌++◌, pure, raise_if, ◌>>=◌, ◌>>◌, gets,
  modify, ◌==◌, ◌!=◌, nat_eq, string_eq, all, contains, find, put, Uuid, Datetime,
}
use Prim.Native.String.{compare}
use Prim.Native.Nat.{Ordering}
use foundora_ai.Business.{AuthContext}
use foundora_ai.Memory.Model.{
  MemoryPolicy, Confidence, out_of_range, confidence_range, unsupported_automatic, policy_changed,
}
use foundora_ai.Memory.Text.{automatic_eligible_types}
use foundora_ai.Memory.Session.{Work, now, selected_business}

-- `sorted(set(texts))`
abbrev placed : Ordering → String → String → List String → List String → List String
placed Ordering.lt t first rest inserted = t ∷ first ∷ rest
placed Ordering.eq t first rest inserted = first ∷ rest
placed Ordering.gt t first rest inserted = first ∷ inserted

unfoldable pub insert_text : String → List String → List String
insert_text t [] = t ∷ []
insert_text t (first ∷ rest) = placed (compare t first) t first rest (insert_text t rest)

unfoldable pub sorted_set : List String → List String
sorted_set [] = []
sorted_set (t ∷ ts) = insert_text t (sorted_set ts)

unfoldable pub new_policy : Uuid → List String → Confidence → Uuid → Datetime → MemoryPolicy
new_policy business_id types minimum owner_id at = record {
  business_id = business_id;
  automatic_accept_types = types;
  minimum_confidence = minimum;
  revision = 1;
  updated_by_owner_id = owner_id;
  created_at = at;
  updated_at = at;
}

unfoldable pub updated_policy :
    MemoryPolicy → List String → Confidence → Uuid → Datetime → MemoryPolicy
updated_policy p types minimum owner_id at = record p {
  automatic_accept_types = types;
  minimum_confidence = minimum;
  revision = p.revision + 1;
  updated_by_owner_id = owner_id;
  updated_at = at;
}

unfoldable pub insert_policy : MemoryPolicy → Work MemoryPolicy
insert_policy p = do modify (λ s. record s { policies = s.policies ++ p ∷ [] }); pure p

unfoldable pub write_policy : MemoryPolicy → Work MemoryPolicy
write_policy p = do
  modify (λ s. record s { policies = put (λ x. x.business_id == p.business_id) p s.policies })
  pure p

-- From the reading of the clock on.
unfoldable pub save_policy :
    AuthContext → Uuid → Option MemoryPolicy → List String → Confidence → ℕ → Work MemoryPolicy
save_policy context business_id none types minimum expected = do
  at ← now
  raise_if (expected != 0) policy_changed
  insert_policy (new_policy business_id types minimum context.owner_id at)
save_policy context business_id (some p) types minimum expected = do
  at ← now
  raise_if (p.revision != expected) policy_changed
  write_policy (updated_policy p types minimum context.owner_id at)

unfoldable pub policy_for : Uuid → List MemoryPolicy → Option MemoryPolicy
policy_for business_id policies = find (λ p. p.business_id == business_id) policies

unfoldable pub update_policy : AuthContext → List String → Confidence → ℕ → Work MemoryPolicy
update_policy context automatic_accept_types minimum_confidence expected_revision = do
  raise_if (out_of_range minimum_confidence) confidence_range
  let types = sorted_set automatic_accept_types
  raise_if (not (all (contains automatic_eligible_types) types)) unsupported_automatic
  business ← selected_business context
  policies ← gets (λ s. s.policies)
  save_policy context business.id (policy_for business.id policies) types minimum_confidence
      expected_revision
