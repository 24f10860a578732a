-- ===== src/Governance/Service/Frames.antt =====
-- What the shared parts of the service read and leave alone.
use foundora_ai.Base.{
  suc, ◌≡◌, ◌≤◌, refl, ap, ◌∙◌, subst, arith, String, Bool, Option, some, List, [], ◌∷◌, ◌++◌,
  Result, ok, All, All-append, All-mono, All-filter, filter_holds, All-Mem, filter, find,
  find-append_none, map, contains, Result-cases, ◌&&◌, string_eq, Option-cases, Bool-cases, inl,
  inr, eq_self, eq-of_beq, ◌==◌, nat_eq, Uuid, Datetime,
}
use mathlib.Core.List.{Memᴰ}
use foundora_ai.Governance.Registry.{tool_catalog}
use foundora_ai.Governance.Model.{
  GlobalGovernanceControl, GovernanceSetting, GovernanceToolPermission, Policy, PolicyVersion,
  GovernanceError, Database,
}
use foundora_ai.Governance.Service.{
  policy_id, text_leb, policy, setting_or_default, all_permissions, missing_permissions,
  insert_by_tool, sort_by_tool, Defaults, defaults, defaults_under,
}

pub policy_keeps : (s s' : Database) (x : Policy × PolicyVersion) → policy s ≡ ok (x, s') → s' ≡ s
unfolding policy
policy_keeps s s' x h =
    elim (Option-cases (find (λ p. p.id == policy_id && p.enabled) s.policies)) [
      | inl missing ↦ absurd (ground arith)
      | inr (p, found) ↦
          elim (Option-cases
            (find (λ v. v.policy_id == p.id && v.version == p.current_version) s.policy_versions)) [
              | inl missing ↦ absurd (ground arith)
              | inr (v, found') ↦ ground arith
            ]
    ]

Mem-append_left {ℓ} : {A : Type ℓ} {a : A} (xs ys : List A) → Memᴰ a xs → Memᴰ a (xs ++ ys)
Mem-append_left [] ys m = elim m [ ]
Mem-append_left (x ∷ xs) ys (Memᴰ.head e) = Memᴰ.head e
Mem-append_left (x ∷ xs) ys (Memᴰ.tail m) = Memᴰ.tail (Mem-append_left xs ys m)

Mem-append_right {ℓ} : {A : Type ℓ} {a : A} (xs ys : List A) → Memᴰ a ys → Memᴰ a (xs ++ ys)
Mem-append_right [] ys m = m
Mem-append_right (x ∷ xs) ys m = Memᴰ.tail (Mem-append_right xs ys m)

module _ (P : GovernanceToolPermission → Type 0) where
  All-insert_by_tool :
      (p : GovernanceToolPermission) (ps : List GovernanceToolPermission)
      → P p
      → All P ps
      → All P (insert_by_tool p ps)
  unfolding insert_by_tool
  All-insert_by_tool p [] h hs = (h, tt)
  All-insert_by_tool p (q ∷ qs) h hs = elim (Bool-cases (text_leb p.tool_id q.tool_id)) [
    | inl t ↦ rw t (h, (hs.0, hs.1))
    | inr f ↦ rw f (hs.0, All-insert_by_tool p qs h hs.1)
  ]

  All-sort_by_tool : (ps : List GovernanceToolPermission) → All P ps → All P (sort_by_tool ps)
  unfolding sort_by_tool
  All-sort_by_tool [] h = tt
  All-sort_by_tool (p ∷ ps) h = All-insert_by_tool p (sort_by_tool ps) h.0 (All-sort_by_tool ps h.1)

missing-business :
    (business_id : Uuid) (owner_id : Option Uuid) (at : Datetime) (existing tools : List String)
    → All
        (λ p. p.business_id ≡ business_id)
        (missing_permissions business_id owner_id at existing tools)
unfolding missing_permissions
missing-business business_id owner_id at existing [] = tt
missing-business business_id owner_id at existing (t ∷ tools) =
    elim (Bool-cases (contains existing t)) [
      | inl c ↦ rw c (missing-business business_id owner_id at existing tools)
      | inr c ↦ rw c (refl, missing-business business_id owner_id at existing tools)
    ]

-- The permissions that are listed are rows of the business.
permissions_listed :
    (business_id : Uuid) (own added : List GovernanceToolPermission)
    → All (λ p. p.business_id ≡ business_id) added
    → All
        (λ p. (p.business_id ≡ business_id) × Memᴰ p (own ++ added))
        (sort_by_tool (filter (λ p. p.business_id == business_id) own ++ added))
permissions_listed business_id own added h = All-sort_by_tool _ (mine ++ added) (
    All-append _ mine added
      (All-zip _ _ mine
        (All-mono _ _ mine (λ p t. eq-of_beq p.business_id business_id t) (filter_holds test own))
        (All-mono _ _ mine (λ p m. Mem-append_left own added m)
          (All-filter (λ p. Memᴰ p own) test own (All-Mem own))))
      (All-zip _ _ added h
        (All-mono _ _ added (λ p m. Mem-append_right own added m) (All-Mem added))))
  where
    test : GovernanceToolPermission → Bool
    test p = p.business_id == business_id

    mine : List GovernanceToolPermission
    mine = filter test own

    All-zip :
        (P Q : GovernanceToolPermission → Type 0) (ps : List GovernanceToolPermission)
        → All P ps
        → All Q ps
        → All (λ p. P p × Q p) ps
    All-zip P Q [] h k = tt
    All-zip P Q (p ∷ ps) h k = ((h.0, k.0), All-zip P Q ps h.1 k.1)

-- What `_defaults` returns: the controls of the database, the business's setting and a list of its
-- permissions, all of them rows of the tables that it leaves.
pub record DefaultRows (business_id : Uuid) (s : Database) (d : Defaults) (s' : Database)
    : Type 0 where
  pub controls : s.controls ≡ some d.controls
  pub same_controls : s'.controls ≡ s.controls
  pub same_actions : s'.actions ≡ s.actions
  pub same_approvals : s'.approvals ≡ s.approvals
  pub same_clock : s'.clock ≡ s.clock
  pub later : s.ticks ≤ s'.ticks
  pub setting : find (λ x. x.business_id == business_id) s'.settings ≡ some d.setting
  pub permissions : All (λ p. (p.business_id ≡ business_id) × Memᴰ p s'.permissions) d.permissions

setting_found :
    (business_id : Uuid) (owner_id : Option Uuid) (at : Datetime) (s s' : Database)
    (x : GovernanceSetting)
    → setting_or_default business_id owner_id at s ≡ ok (x, s')
    → (find (λ x. x.business_id == business_id) s'.settings ≡ some x)
      × (s' ≡ record s { settings = s'.settings })
unfolding setting_or_default
setting_found business_id owner_id at s s' x h =
    elim (Option-cases (find (λ x. x.business_id == business_id) s.settings)) [
      | inl missing ↦
          let e : s'.settings ≡ s.settings ++ x ∷ [] = ground arith in
          let b : x.business_id ≡ business_id = ground arith in
          (
            rw e (
                find-append_none (λ x. x.business_id == business_id) s.settings (x ∷ []) missing
                ∙ rw b (rw (eq_self business_id))),
            ground arith,
          )
      | inr (y, found) ↦ (ground arith, ground arith)
    ]

permissions_rows :
    (business_id : Uuid) (owner_id : Option Uuid) (at : Datetime) (s s' : Database)
    (ps : List GovernanceToolPermission)
    → all_permissions business_id owner_id at s ≡ ok (ps, s')
    → All (λ p. (p.business_id ≡ business_id) × Memᴰ p s'.permissions) ps
      × (s' ≡ record s { permissions = s'.permissions })
unfolding all_permissions
permissions_rows business_id owner_id at s s' ps h =
    let own = filter (λ p. p.business_id == business_id) s.permissions in
    let added =
      missing_permissions business_id owner_id at (map (λ p. p.tool_id) own)
        (map (λ t. t.tool_id) tool_catalog) in
    let state : s' ≡ record s { permissions = s.permissions ++ added } = ground arith in
    let listed : ps ≡ sort_by_tool (own ++ added) = ground arith in
    (
      rw (state, listed)
          (permissions_listed business_id s.permissions added
            (missing-business business_id owner_id at _ _)),
      ground arith,
    )

default_rows :
    (business_id : Uuid) (s s1 s2 : Database) (at : Datetime) (d : Defaults)
    → s.controls ≡ some d.controls
    → (find (λ x. x.business_id == business_id) s1.settings ≡ some d.setting)
      × (s1 ≡ record s { ticks = suc s.ticks; settings = s1.settings })
    → All (λ p. (p.business_id ≡ business_id) × Memᴰ p s2.permissions) d.permissions
      × (s2 ≡ record s1 { permissions = s2.permissions })
    → DefaultRows business_id s d s2
default_rows business_id s s1 s2 at d c x p = record {
  controls = c;
  same_controls = cc;
  same_actions = ap (λ (t : Database). t.actions) p.1 ∙ ap (λ (t : Database). t.actions) x.1;
  same_approvals = ap (λ (t : Database). t.approvals) p.1 ∙ ap (λ (t : Database). t.approvals) x.1;
  same_clock = ap (λ (t : Database). t.clock) p.1 ∙ ap (λ (t : Database). t.clock) x.1;
  later = omega (arith, ap (λ (t : Database). t.ticks) p.1, ap (λ (t : Database). t.ticks) x.1);
  setting = rw (ap (λ (t : Database). t.settings) p.1) x.0;
  permissions = p.0;
}

rows_under :
    (c : GlobalGovernanceControl) (business_id : Uuid) (owner_id : Option Uuid) (s s' : Database)
    (d : Defaults)
    → s.controls ≡ some c
    → defaults_under c business_id owner_id s ≡ ok (d, s')
    → DefaultRows business_id s d s'
unfolding defaults_under
rows_under c business_id owner_id s s' d found h =
    let at = s.clock s.ticks in
    let start = record s { ticks = suc s.ticks } in
    elim (Result-cases (setting_or_default business_id owner_id at start)) [
      | inr (e, x) ↦ absurd (ground arith)
      | inl ((x, s1), xe) ↦ elim (Result-cases (all_permissions business_id owner_id at s1)) [
        | inr (e, p) ↦ absurd (ground arith)
        | inl ((ps, s2), pe) ↦
            let made : Defaults = record { controls = c; setting = x; permissions = ps } in
            let done : Result GovernanceError (Defaults × Database) = ok (made, s2) in
            let same : done ≡ ok (d, s') = rw (xe, pe) at h in
            let e : made ≡ d = cc same in
            let t : s2 ≡ s' = cc same in
            subst (λ d. DefaultRows business_id s d s') e
              (subst (λ s'. DefaultRows business_id s made s') t
                (default_rows business_id s s1 s2 at made found
                  (setting_found business_id owner_id at start s1 x xe)
                  (permissions_rows business_id owner_id at s1 s2 ps pe)))
      ]
    ]

pub DefaultRows-of_ok :
    (business_id : Uuid) (owner_id : Option Uuid) (s s' : Database) (d : Defaults)
    → defaults business_id owner_id s ≡ ok (d, s')
    → DefaultRows business_id s d s'
unfolding defaults
DefaultRows-of_ok business_id owner_id s s' d h = elim (Option-cases s.controls) [
  | inl missing ↦ absurd (ground arith)
  | inr (c, found) ↦ rows_under c business_id owner_id s s' d found (ground arith)
]
