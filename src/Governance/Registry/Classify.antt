-- ===== src/Governance/Registry/Classify.antt =====
-- What `classify_action` of governance/registry.py returns.
use foundora_ai.Base.{
  ℕ, ◌≤◌, ◌<◌, ◌≡◌, ◌⊎◌, inl, inr, refl, subst, ap, sym, ◌∙◌, String, arith, Option, some, List, [],
  ◌∷◌, ◌++◌, Result, ok, err, ltb, Bool-cases, Option-cases, ltb→lt, lt→ltb, false,
}
use foundora_ai.Governance.Registry.{
  RiskClass, r4, risk_rank, risk_of_text, ActionDescriptor, ToolDescriptor, find_action, find_tool,
  classify_action, better, highest, tool_risks, spend_risks, minimum_risks, ClassificationError,
}

module _ (action_type : String) (tool_id : Option String) (requested : ℕ)
    (minimum : Option String) where
  -- A class that some part of the request carries.
  pub data Carries (r : RiskClass) : Type 0 where
    by_action :
        (d : ActionDescriptor) → find_action action_type ≡ some d → r ≡ d.risk_class → Carries r
    by_tool :
        (id : String) (t : ToolDescriptor)
        → tool_id ≡ some id
        → find_tool id ≡ some t
        → r ≡ t.risk_class
        → Carries r
    by_spend : 0 < requested → r ≡ r4 → Carries r
    by_minimum : (name : String) → minimum ≡ some name → risk_of_text name ≡ some r → Carries r

abbrev Among : RiskClass → List RiskClass → Type 0
Among r [] = ⊥
Among r (x ∷ xs) = (r ≡ x) ⊎ Among r xs

only : (q r : RiskClass) → Among q (r ∷ []) → q ≡ r
only q r (inl e) = e
only q r (inr h) = absurd h

Among-append :
    (r : RiskClass) (xs ys : List RiskClass) → Among r xs ⊎ Among r ys → Among r (xs ++ ys)
Among-append r [] ys (inl h) = absurd h
Among-append r [] ys (inr h) = h
Among-append r (x ∷ xs) ys (inl (inl e)) = inl e
Among-append r (x ∷ xs) ys (inl (inr h)) = inr (Among-append r xs ys (inl h))
Among-append r (x ∷ xs) ys (inr h) = inr (Among-append r xs ys (inr h))

append-Among :
    (r : RiskClass) (xs ys : List RiskClass) → Among r (xs ++ ys) → Among r xs ⊎ Among r ys
append-Among r [] ys h = inr h
append-Among r (x ∷ xs) ys (inl e) = inl (inl e)
append-Among r (x ∷ xs) ys (inr h) = elim (append-Among r xs ys h) [
  | inl m ↦ inl (inr m)
  | inr m ↦ inr m
]

not-lt-le : (a b : ℕ) → ltb a b ≡ false → b ≤ a
not-lt-le a b h = ground arith

better-le_left : (a b : RiskClass) → risk_rank a ≤ risk_rank (better a b)
unfolding better
better-le_left a b = elim (Bool-cases (ltb (risk_rank a) (risk_rank b))) [
  | inl t ↦ rw t (omega (arith, ltb→lt (risk_rank a) (risk_rank b) t))
  | inr f ↦ rw f (omega arith)
]

better-le_right : (a b : RiskClass) → risk_rank b ≤ risk_rank (better a b)
unfolding better
better-le_right a b = elim (Bool-cases (ltb (risk_rank a) (risk_rank b))) [
  | inl t ↦ rw t (omega arith)
  | inr f ↦ rw f (not-lt-le (risk_rank a) (risk_rank b) f)
]

better_cases : (a b : RiskClass) → (better a b ≡ b) ⊎ (better a b ≡ a)
unfolding better
better_cases a b = elim (Bool-cases (ltb (risk_rank a) (risk_rank b))) [
  | inl t ↦ inl (rw t)
  | inr f ↦ inr (rw f)
]

abbrev step_eq :
    (best r : RiskClass) (rs : List RiskClass) → highest best (r ∷ rs) ≡ highest (better best r) rs
unfolding highest
step_eq best r rs = refl

highest-le : (best : RiskClass) (rs : List RiskClass) → risk_rank best ≤ risk_rank (highest best rs)
highest-le best [] = unfold highest in omega arith
highest-le best (r ∷ rs) =
    rw (step_eq best r rs) (omega (arith, highest-le (better best r) rs, better-le_left best r))

highest-Among : (best : RiskClass) (rs : List RiskClass) → Among (highest best rs) (best ∷ rs)
unfolding better highest
highest-Among best [] = inl (unfold highest in refl)
highest-Among best (r ∷ rs) = rw (step_eq best r rs) (place (highest-Among (better best r) rs))
  where
    place :
        Among (highest (better best r) rs) (better best r ∷ rs)
        → Among (highest (better best r) rs) (best ∷ r ∷ rs)
    place (inl e) = elim (better_cases best r) [
      | inl right ↦ inr (inl (e ∙ right))
      | inr left ↦ inl (e ∙ left)
    ]
    place (inr m) = inr (inr m)

Among-le :
    (q best : RiskClass) (rs : List RiskClass)
    → Among q (best ∷ rs)
    → risk_rank q ≤ risk_rank (highest best rs)
Among-le q best rs (inl e) = rw e (highest-le best rs)
Among-le q best [] (inr h) = absurd h
Among-le q best (r ∷ rs) (inr (inl e)) =
    rw (step_eq best r rs, e) (omega (arith, highest-le (better best r) rs, better-le_right best r))
Among-le q best (r ∷ rs) (inr (inr m)) =
    rw (step_eq best r rs) (Among-le q (better best r) rs (inr m))

module _ (action_type : String) (tool_id : Option String) (requested : ℕ)
    (minimum : Option String) where
  -- The list `risks` of the source, behind the class of the action.
  record Listed (r : RiskClass) : Type 0 where
    d : ActionDescriptor
    found : find_action action_type ≡ some d
    tools : List RiskClass
    tools_are : tool_risks tool_id ≡ ok tools
    minima : List RiskClass
    minima_are : minimum_risks minimum ≡ ok minima
    result : r ≡ highest d.risk_class (tools ++ spend_risks requested ++ minima)

  Listed-of_ok :
      (r : RiskClass) → classify_action action_type tool_id requested minimum ≡ ok r → Listed r
  unfolding classify_action
  Listed-of_ok r h = elim (Option-cases (find_action action_type)) [
    | inl missing ↦ cc
    | inr (d, found) ↦ after d found (tool_risks tool_id) refl (minimum_risks minimum) refl
  ]
    where
      after :
          (d : ActionDescriptor)
          → find_action action_type ≡ some d
          → (t : Result ClassificationError (List RiskClass)) → tool_risks tool_id ≡ t
          → (m : Result ClassificationError (List RiskClass)) → minimum_risks minimum ≡ m
          → Listed r
      after d found (err e) te m me = absurd (cc)
      after d found (ok t) te (err e) me = absurd (cc)
      after d found (ok t) te (ok m) me = record {
        d = d;
        found = found;
        tools = t;
        tools_are = te;
        minima = m;
        minima_are = me;
        result = cc;
      }

  Among-parts :
      (q : RiskClass) (T M : List RiskClass)
      → Among q T ⊎ Among q (spend_risks requested) ⊎ Among q M
      → Among q (T ++ spend_risks requested ++ M)
  Among-parts q T M (inl h) =
      Among-append q (T ++ spend_risks requested) M (inl (Among-append q T _ (inl h)))
  Among-parts q T M (inr (inl h)) =
      Among-append q (T ++ spend_risks requested) M (inl (Among-append q T _ (inr h)))
  Among-parts q T M (inr (inr h)) = Among-append q (T ++ spend_risks requested) M (inr h)

  Among-tools :
      (q : RiskClass) (id : String) (t : ToolDescriptor) (T : List RiskClass)
      → tool_id ≡ some id
      → find_tool id ≡ some t
      → q ≡ t.risk_class
      → tool_risks tool_id ≡ ok T
      → T ≡ q ∷ []
  unfolding tool_risks
  Among-tools q id t T named found e h = ground arith

  Among-minima :
      (q : RiskClass) (name : String) (M : List RiskClass)
      → minimum ≡ some name
      → risk_of_text name ≡ some q
      → minimum_risks minimum ≡ ok M
      → M ≡ q ∷ []
  unfolding minimum_risks
  Among-minima q name M named found h = ground arith

  Carries-Among :
      (r q : RiskClass) (l : Listed r)
      → Carries action_type tool_id requested minimum q
      → Among q (l.d.risk_class ∷ (l.tools ++ spend_risks requested ++ l.minima))
  unfolding spend_risks
  Carries-Among r q l (by_action d found e) = inl (cc (l.found, found))
  Carries-Among r q l (by_tool id t named found e) = inr (
      Among-parts q l.tools l.minima
        (inl (rw (Among-tools q id t l.tools named found e l.tools_are) (inl refl))))
  Carries-Among r q l (by_spend positive e) =
      inr (Among-parts q l.tools l.minima (inr (inl (rw (lt→ltb 0 requested positive) (inl e)))))
  Carries-Among r q l (by_minimum name named found) = inr (
      Among-parts q l.tools l.minima
        (inr (inr (rw (Among-minima q name l.minima named found l.minima_are) (inl refl)))))

  tools-Carries :
      (q : RiskClass) (T : List RiskClass)
      → tool_risks tool_id ≡ ok T
      → Among q T
      → Carries action_type tool_id requested minimum q
  unfolding tool_risks
  tools-Carries q T h m = elim (Option-cases tool_id) [
    | inl e ↦ let nothing : T ≡ [] = ground arith in absurd (subst (Among q) nothing m)
    | inr (id, e) ↦ elim (Option-cases (find_tool id)) [
      | inl missing ↦ absurd (ground arith)
      | inr (t, found) ↦
          let single : T ≡ t.risk_class ∷ [] = ground arith in
          by_tool id t e found (only q t.risk_class (subst (Among q) single m))
    ]
  ]

  minima-Carries :
      (q : RiskClass) (M : List RiskClass)
      → minimum_risks minimum ≡ ok M
      → Among q M
      → Carries action_type tool_id requested minimum q
  unfolding minimum_risks
  minima-Carries q M h m = elim (Option-cases minimum) [
    | inl e ↦ let nothing : M ≡ [] = ground arith in absurd (subst (Among q) nothing m)
    | inr (name, e) ↦ elim (Option-cases (risk_of_text name)) [
      | inl missing ↦ absurd (ground arith)
      | inr (r, found) ↦
          let single : M ≡ r ∷ [] = ground arith in
          by_minimum name e (found ∙ ap some (sym (only q r (subst (Among q) single m))))
    ]
  ]

  spend-Carries :
      (q : RiskClass)
      → Among q (spend_risks requested)
      → Carries action_type tool_id requested minimum q
  unfolding spend_risks
  spend-Carries q m = elim (Bool-cases (ltb 0 requested)) [
    | inl t ↦ by_spend (ltb→lt 0 requested t) (only q r4 (rw t at m))
    | inr f ↦ absurd (rw f at m)
  ]

  Among-Carries :
      (r q : RiskClass) (l : Listed r)
      → Among q (l.d.risk_class ∷ (l.tools ++ spend_risks requested ++ l.minima))
      → Carries action_type tool_id requested minimum q
  Among-Carries r q l (inl e) = by_action l.d l.found e
  Among-Carries r q l (inr m) =
      elim (append-Among q (l.tools ++ spend_risks requested) l.minima m) [
        | inl m' ↦ elim (append-Among q l.tools (spend_risks requested) m') [
          | inl t ↦ tools-Carries q l.tools l.tools_are t
          | inr n ↦ spend-Carries q n
        ]
        | inr n ↦ minima-Carries q l.minima l.minima_are n
      ]

classify_bounds :
    (action_type : String) (tool_id : Option String) (requested : ℕ) (minimum : Option String)
    (r : RiskClass)
    → classify_action action_type tool_id requested minimum ≡ ok r
    → Carries action_type tool_id requested minimum r
      × ((q : RiskClass)
          → Carries action_type tool_id requested minimum q
          → risk_rank q ≤ risk_rank r)
classify_bounds a t n m r h = given (Listed-of_ok a t n m r h)
  where
    given :
        Listed a t n m r
        → Carries a t n m r × ((q : RiskClass) → Carries a t n m q → risk_rank q ≤ risk_rank r)
    given l = (
      Among-Carries a t n m r r l (
          subst (λ x. Among x (l.d.risk_class ∷ (l.tools ++ spend_risks n ++ l.minima)))
            (sym l.result) (highest-Among l.d.risk_class (l.tools ++ spend_risks n ++ l.minima))),
      λ q c.
          subst (λ x. risk_rank q ≤ risk_rank x) (sym l.result)
            (Among-le q l.d.risk_class (l.tools ++ spend_risks n ++ l.minima)
              (Carries-Among a t n m r q l c)),
    )

-- An accepted request is given the class of one of its parts, and no part of it carries a class of a
-- higher rank.
pub classify-greatest :
    (action_type : String) (tool_id : Option String) (requested : ℕ) (minimum : Option String)
    (r q : RiskClass)
    → classify_action action_type tool_id requested minimum ≡ ok r
    → Carries action_type tool_id requested minimum q
    → Carries action_type tool_id requested minimum r × (risk_rank q ≤ risk_rank r)
classify-greatest a t n m r q h c =
    let (carried, above) = classify_bounds a t n m r h in (carried, above q c)
