-- ===== src/ModelGateway/Routing/Governed.antt =====
-- What the router offers for a task.
use foundora_ai.Base.{
  ℕ, suc, ◌≤◌, ◌≡◌, inl, inr, ap, subst, arith, String, Bool, true, false, ◌&&◌, List, [], ◌∷◌, ok,
  ◌==◌, string_eq, length, any, All, Bool-cases, Result-cases,
}
use foundora_ai.ModelGateway.Routing.{
  model_of, ModelSpec, RouteCandidate, Libraries, Router, model_spec, first_choice, more_choices,
  is_same, select, candidates,
}

-- A candidate that the registry has.
pub record IsRegistered (c : RouteCandidate) : Type 0 where
  pub item : ModelSpec
  pub found : model_spec c ≡ ok item

-- No candidate is one of the earlier ones.
abbrev pub AreNew : List RouteCandidate → List RouteCandidate → Type 0
AreNew seen [] = Unit
AreNew seen (c ∷ cs) = (any (is_same c) seen ≡ false) × AreNew (c ∷ seen) cs

select-governed :
    (providers : List (String × String)) (seen cs result : List RouteCandidate)
    → select providers seen cs ≡ ok result
    → All IsRegistered result × AreNew seen result × (length result ≤ length cs)
unfolding select
select-governed providers seen [] result h =
    let same : [] ≡ result = ground arith in
    subst (λ xs. All IsRegistered xs × AreNew seen xs × (length xs ≤ 0)) same (tt, tt, omega arith)
select-governed providers seen (c ∷ cs) result h = elim (Bool-cases (any (is_same c) seen)) [
  | inl known ↦
      let (registered, new, few) = select-governed providers seen cs result (rw known at h) in
      (registered, new, omega (arith, few))
  | inr unknown ↦ elim (Result-cases (model_spec c)) [
    | inr (e, bad) ↦ absurd (ground arith)
    | inl (item, found) ↦ elim (Result-cases (model_of c.provider providers)) [
      | inr (e, bad) ↦ absurd (ground arith)
      | inl (provider, there) ↦ elim (Result-cases (select providers (c ∷ seen) cs)) [
        | inr (e, bad) ↦ absurd (ground arith)
        | inl (rest, good) ↦
            let (registered, new, few) = select-governed providers (c ∷ seen) cs rest good in
            let same : (c ∷ rest) ≡ result = ground arith in
            subst (λ xs. All IsRegistered xs × AreNew seen xs × (length xs ≤ suc (length cs))) same
              (
                (record { item = item; found = found }, registered),
                (unknown, new),
                omega (arith, few),
              )
      ]
    ]
  ]
]

-- The first one of a list is kept when none was seen before.
select-first :
    (providers : List (String × String)) (c : RouteCandidate) (cs result : List RouteCandidate)
    → select providers [] (c ∷ cs) ≡ ok result
    → (rest : List RouteCandidate) × (result ≡ c ∷ rest)
unfolding select
select-first providers c cs result h = elim (Result-cases (model_spec c)) [
  | inr (e, bad) ↦ absurd (ground arith)
  | inl (item, found) ↦ elim (Result-cases (model_of c.provider providers)) [
    | inr (e, bad) ↦ absurd (ground arith)
    | inl (provider, there) ↦ elim (Result-cases (select providers (c ∷ []) cs)) [
      | inr (e, bad) ↦ absurd (ground arith)
      | inl (rest, good) ↦ (rest, ground arith)
    ]
  ]
]

-- What is offered for a task.
pub record IsGoverned (router : Router) (task_type sensitivity : String) (allow_fallback : Bool)
    (result : List RouteCandidate) : Type 0 where
  pub permitted : (allow_fallback && sensitivity == "sensitive") ≡ false
  pub first : RouteCandidate
  pub chosen : first_choice router task_type ≡ ok first
  pub rest : List RouteCandidate
  pub leads : result ≡ first ∷ rest
  pub registered : All IsRegistered result
  pub new : AreNew [] result
  pub alone : allow_fallback ≡ false → length result ≤ 1

no_more :
    (lib : Libraries) (router : Router) (allow_fallback : Bool) (more : List RouteCandidate) (n : ℕ)
    → allow_fallback ≡ false
    → more_choices lib router allow_fallback ≡ ok more
    → n ≤ suc (length more)
    → n ≤ 1
unfolding more_choices
no_more lib router true more n e h few = absurd (ground arith)
no_more lib router false more n e h few =
    let same : [] ≡ more = ground arith in
    let count : 0 ≡ length more = ap length same in omega (arith, count, few)

-- Routes that are offered start with the task's own route, or the primary provider's where the task has
-- none; every one of them is in the registry and none stands twice; sensitive content is offered no
-- fallback, and without permission to fall back there is one route at most.
pub candidates-IsGoverned :
    (lib : Libraries) (router : Router) (task_type sensitivity : String) (allow_fallback : Bool)
    (result : List RouteCandidate)
    → candidates lib router task_type sensitivity allow_fallback ≡ ok result
    → IsGoverned router task_type sensitivity allow_fallback result
unfolding candidates
candidates-IsGoverned lib router task_type sensitivity allow_fallback result h =
    elim (Bool-cases (allow_fallback && sensitivity == "sensitive")) [
      | inl t ↦ absurd (ground arith)
      | inr permitted ↦ elim (Result-cases (first_choice router task_type)) [
        | inr (e, bad) ↦ absurd (ground arith)
        | inl (first, chosen) ↦ elim (Result-cases (more_choices lib router allow_fallback)) [
          | inr (e, bad) ↦ absurd (ground arith)
          | inl (more, good) ↦
              let run : select router.providers [] (first ∷ more) ≡ ok result = ground arith in
              let (registered, new, few) =
                select-governed router.providers [] (first ∷ more) result run in
              let (rest, leads) = select-first router.providers first more result run in
              record {
                permitted = permitted;
                first = first;
                chosen = chosen;
                rest = rest;
                leads = leads;
                registered = registered;
                new = new;
                alone = λ e. no_more lib router allow_fallback more (length result) e good few;
              }
        ]
      ]
    ]
