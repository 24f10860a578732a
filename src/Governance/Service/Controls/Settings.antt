-- ===== src/Governance/Service/Controls/Settings.antt =====
-- Which changes of a business's settings are refused.
use foundora_ai.Base.{
  ℕ, ◌+◌, ◌≡◌, ap, ◌∙◌, arith, true, Option, some, ok, err, Result-cases, Option-cases, inl, inr,
  find, put, find-put, find_sound, ◌==◌, ◌!=◌, nat_eq, Uuid,
}
use foundora_ai.Business.{AuthContext, Business, resolve_selected_business}
use foundora_ai.Governance.Model.{
  GlobalGovernanceControl, GovernanceSetting, Database, settings_changed, AutonomyLevel,
}
use foundora_ai.Governance.Service.{
  add_audit, selected_business, Defaults, defaults, defaults_under, setting_or_default,
  all_permissions,
}
use foundora_ai.Governance.Service.Frames.{DefaultRows-of_ok}
use foundora_ai.Governance.Service.Controls.{updated_setting, update_settings, change_settings}

defaults-directory :
    (business_id : Uuid) (owner_id : Option Uuid) (s s' : Database) (d : Defaults)
    → defaults business_id owner_id s ≡ ok (d, s')
    → s'.directory ≡ s.directory
unfolding defaults defaults_under setting_or_default all_permissions
defaults-directory business_id owner_id s s' d h =
    elim (Option-cases (find (λ x. x.business_id == business_id) s.settings)) [
      | inl missing ↦ ground arith
      | inr (x, found) ↦ ground arith
    ]

-- The settings of a business that has some are read as they are.
stale_settings :
    (context : AuthContext) (level : AutonomyLevel) (daily per_action revision : ℕ) (s : Database)
    (b : Business) (c : GlobalGovernanceControl) (y : GovernanceSetting)
    → resolve_selected_business s.directory context ≡ some b
    → s.controls ≡ some c
    → find (λ x. x.business_id == b.id) s.settings ≡ some y
    → (y.revision != revision) ≡ true
    → update_settings context level daily per_action revision s ≡ err settings_changed
unfolding update_settings change_settings selected_business defaults defaults_under
    setting_or_default all_permissions
stale_settings context level daily per_action revision s b c y known controls found stale =
    ground arith

-- What a change of the settings writes.
record Changed (business_id : Uuid) (d : Defaults) (revision : ℕ) (s s' : Database)
    (x : GovernanceSetting) : Type 0 where
  expected : d.setting.revision ≡ revision
  counted : x.revision ≡ revision + 1
  same_business : x.business_id ≡ d.setting.business_id
  settings : s'.settings ≡ put (λ y. y.business_id == business_id) x s.settings
  same_controls : s'.controls ≡ s.controls
  same_directory : s'.directory ≡ s.directory

Changed-of_ok :
    (context : AuthContext) (business_id : Uuid) (d : Defaults) (level : AutonomyLevel)
    (daily per_action revision : ℕ) (s s' : Database) (x : GovernanceSetting)
    → change_settings context business_id d level daily per_action revision s ≡ ok (x, s')
    → Changed business_id d revision s s' x
unfolding change_settings updated_setting add_audit
Changed-of_ok context business_id d level daily per_action revision s s' x h = ground arith

-- A change of the settings raises their revision by one, and a further change that expects the same
-- revision is refused.
pub update_settings_once :
    (context : AuthContext) (level level' : AutonomyLevel)
    (daily daily' per_action per_action' revision : ℕ) (s s' : Database) (x : GovernanceSetting)
    → update_settings context level daily per_action revision s ≡ ok (x, s')
    → (x.revision ≡ revision + 1)
      × (update_settings context level' daily' per_action' revision s' ≡ err settings_changed)
unfolding update_settings selected_business
update_settings_once context level level' daily daily' per_action per_action' revision s s' x h =
    elim (Option-cases (resolve_selected_business s.directory context)) [
      | inl missing ↦ absurd (ground arith)
      | inr (b, known) ↦ elim (Result-cases (defaults b.id (some context.owner_id) s)) [
        | inr (e, bad) ↦ absurd (ground arith)
        | inl ((d, s1), good) ↦ of_change b d s1 known good (
            Changed-of_ok context b.id d level daily per_action revision s1 s' x
              (rw (known, good) at h))
      ]
    ]
  where
    later : (new old : ℕ) → new ≡ old + 1 → (new != old) ≡ true
    later new old e = ground arith

    of_change :
        (b : Business) (d : Defaults) (s1 : Database)
        → resolve_selected_business s.directory context ≡ some b
        → defaults b.id (some context.owner_id) s ≡ ok (d, s1)
        → Changed b.id d revision s1 s' x
        → (x.revision ≡ revision + 1)
          × (update_settings context level' daily' per_action' revision s' ≡ err settings_changed)
    of_change b d s1 known good c =
        let rows = DefaultRows-of_ok b.id (some context.owner_id) s s1 d good in
        (
          c.counted,
          stale_settings context level' daily' per_action' revision s' b d.controls x
              (ap (λ r. resolve_selected_business r context)
                  (c.same_directory ∙ defaults-directory b.id (some context.owner_id) s s1 d good)
                ∙ known)
              (c.same_controls ∙ rows.same_controls ∙ rows.controls)
              (ap (find (λ y. y.business_id == b.id)) c.settings
                ∙ find-put (λ y. y.business_id == b.id) x s1.settings d.setting
                    (ap (λ k. k == b.id) c.same_business
                      ∙ find_sound (λ y. y.business_id == b.id) s1.settings d.setting rows.setting)
                    rows.setting)
              (later x.revision revision c.counted),
        )
