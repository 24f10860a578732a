-- ===== src/Governance/Service.antt =====
-- governance/service.py: what the methods of the service share. Each runs in a transaction of its
-- own, which an exception rolls back.
pub mod Evaluate
pub mod Decide
pub mod Authorize
pub mod Controls
pub mod Frames
use Prim.Native.Nat.{Ordering}
use Prim.Native.String.{compare}
use foundora_ai.Base.{
  ℕ, suc, ◌-◌, ◌*◌, ◌%◌, String, Bool, true, false, not, ◌&&◌, Option, none, some, List, [], ◌∷◌,
  ◌++◌, map, Result, ok, err, Tx, pure, raise, or_raise, ◌>>=◌, ◌>>◌, gets, modify, continue, ◌==◌,
  nat_eq, string_eq, if◌then◌else◌, leb, find, put, filter, sum_of, contains, Uuid, Datetime,
  Details, External,
}
use foundora_ai.Business.{AuthContext, Business, resolve_selected_business}
use foundora_ai.Events.Contracts.{EventConsumer}
use foundora_ai.Events.Model.{DomainEvent}
use foundora_ai.Events.Publish.{Request, publish_event}
use foundora_ai.Governance.Registry.{tool_catalog}
use foundora_ai.Governance.Model.{
  Policy, PolicyVersion, GlobalGovernanceControl, GovernanceSetting, GovernanceToolPermission,
  GovernanceAction, ApprovalRequest, GovernanceAuditEvent, GovernanceError, Database, level_off,
  ActionStatus, authorized, no_selected_business, policy_unavailable, controls_unavailable,
  unpublished,
}

abbrev pub Gov : Type 0 → Type 0
Gov A = Tx GovernanceError Database A

-- `ActionRecord`
pub record ActionRecord : Type 0 where
  pub action : GovernanceAction
  pub approval : Option ApprovalRequest

-- `_now`
abbrev pub now : Gov Datetime
now s = ok (s.clock s.ticks, record s { ticks = suc s.ticks })

-- `uuid.uuid4()`
abbrev pub new_uuid : Gov Uuid
new_uuid s =
    let o = s.outbox in
    ok (o.next_uuid, record s { outbox = record o { next_uuid = suc o.next_uuid } })

unfoldable pub microseconds_of_day : ℕ
microseconds_of_day = 24 * 60 * 60 * 1_000_000

-- `_day_start`
unfoldable pub day_start : Datetime → Datetime
unfolding microseconds_of_day
day_start t = t - t % microseconds_of_day

-- The arguments of `_add_audit` behind the event type.
pub record Audit : Type 0 where
  pub business_id : Option Uuid
  pub action_id : Option Uuid
  pub approval_request_id : Option Uuid
  pub actor_owner_id : Option Uuid
  pub idempotency_key : Option String
  pub details : Details

-- `_add_audit`
unfoldable pub add_audit : String → Audit → Gov (Unit {0})
add_audit event_type a = do
  id ← new_uuid
  created_at ← now
  modify (λ s. record s {
    audits =
        s.audits
        ++ record {
          id = id;
          business_id = a.business_id;
          action_id = a.action_id;
          approval_request_id = a.approval_request_id;
          event_type = event_type;
          actor_owner_id = a.actor_owner_id;
          idempotency_key = a.idempotency_key;
          details = a.details;
          created_at = created_at;
        }
          ∷ [];
  })

-- POLICY_ID
abbrev pub policy_id : String
policy_id = "foundora-default-governance"

-- `_policy`: the two rows of the join.
unfoldable pub policy : Gov (Policy × PolicyVersion)
policy = do
  s ← gets (λ s. s)
  p ← or_raise policy_unavailable (find (λ p. p.id == policy_id && p.enabled) s.policies)
  v ←
      or_raise policy_unavailable
        (find (λ v. v.policy_id == p.id && v.version == p.current_version) s.policy_versions)
  pure (p, v)

abbrev default_setting : Uuid → Option Uuid → Datetime → GovernanceSetting
default_setting business_id owner_id at = record {
  business_id = business_id;
  autonomy_level = level_off;
  daily_spend_limit_microusd = 0;
  per_action_spend_limit_microusd = 0;
  revision = 1;
  updated_by_owner_id = owner_id;
  updated_at = at;
}

-- `if settings is None: settings = GovernanceSetting(...)`
unfoldable pub setting_or_default : Uuid → Option Uuid → Datetime → Gov GovernanceSetting
setting_or_default business_id owner_id at s =
    elim (find (λ x. x.business_id == business_id) s.settings) [
      | some x ↦ ok (x, s)
      | none ↦
          let x = default_setting business_id owner_id at in
          ok (x, record s { settings = s.settings ++ x ∷ [] })
    ]

-- The permissions of the catalogue's tools that are not among the existing ones.
unfoldable pub missing_permissions :
    Uuid → Option Uuid → Datetime → List String → List String → List GovernanceToolPermission
missing_permissions business_id owner_id at existing [] = []
missing_permissions business_id owner_id at existing (tool_id ∷ tools) =
    let rest = missing_permissions business_id owner_id at existing tools in
    if contains existing tool_id
    then rest
    else record {
      business_id = business_id;
      tool_id = tool_id;
      enabled = true;
      revision = 1;
      updated_by_owner_id = owner_id;
      updated_at = at;
    }
      ∷ rest

abbrev text_leb : String → String → Bool
text_leb a b = elim (compare a b) [ Ordering.gt ↦ false | _ ↦ true ]

-- `permissions.sort(key=lambda item: item.tool_id)`
unfoldable pub insert_by_tool :
    GovernanceToolPermission → List GovernanceToolPermission → List GovernanceToolPermission
insert_by_tool p [] = p ∷ []
insert_by_tool p (q ∷ qs) =
    let later = q ∷ insert_by_tool p qs in
    if text_leb p.tool_id q.tool_id then p ∷ q ∷ qs else later

unfoldable pub sort_by_tool : List GovernanceToolPermission → List GovernanceToolPermission
sort_by_tool [] = []
sort_by_tool (p ∷ ps) = insert_by_tool p (sort_by_tool ps)

unfoldable pub all_permissions : Uuid → Option Uuid → Datetime → Gov (List GovernanceToolPermission)
all_permissions business_id owner_id at s =
    let own = filter (λ p. p.business_id == business_id) s.permissions in
    let added =
      missing_permissions business_id owner_id at (map (λ p. p.tool_id) own)
        (map (λ t. t.tool_id) tool_catalog) in
    ok (sort_by_tool (own ++ added), record s { permissions = s.permissions ++ added })

pub record Defaults : Type 0 where
  pub controls : GlobalGovernanceControl
  pub setting : GovernanceSetting
  pub permissions : List GovernanceToolPermission

-- `_defaults` once the controls are found.
unfoldable pub defaults_under : GlobalGovernanceControl → Uuid → Option Uuid → Gov Defaults
defaults_under controls business_id owner_id = do
  at ← now
  setting ← setting_or_default business_id owner_id at
  permissions ← all_permissions business_id owner_id at
  pure (record { controls = controls; setting = setting; permissions = permissions })

-- `_defaults`
unfoldable pub defaults : Uuid → Option Uuid → Gov Defaults
defaults business_id owner_id = do
  found ← gets (λ s. s.controls)
  controls ← or_raise controls_unavailable found
  defaults_under controls business_id owner_id

abbrev pub is_authorized : ActionStatus → Bool
is_authorized authorized = true
is_authorized _ = false

abbrev pub authorized_since : Datetime → Option Datetime → Bool
authorized_since start none = false
authorized_since start (some at) = leb start at

-- The share of an action in the spend that is authorised since a time.
abbrev pub spend_since : Uuid → Datetime → GovernanceAction → ℕ
spend_since business_id start a =
    if a.business_id == business_id
      && (is_authorized a.status && authorized_since start a.authorized_at)
    then a.requested_spend_microusd
    else 0

-- `_authorized_spend_today`
unfoldable pub authorized_spend_today : Uuid → Datetime → List GovernanceAction → ℕ
authorized_spend_today business_id at actions =
    sum_of (spend_since business_id (day_start at)) actions

-- `publish_event` in the session, with its own reading of the clock.
unfoldable pub publish : External → List EventConsumer → Request → Gov DomainEvent
publish ext consumers r = do
  at ← now
  λ s. elim (publish_event ext consumers r at s.outbox) [
    | err e ↦ err (unpublished e)
    | ok (event, o) ↦ ok (event, record s { outbox = o })
  ]

-- `resolve_selected_business`, raising.
unfoldable pub selected_business : AuthContext → Gov Business
selected_business context = do
  directory ← gets (λ s. s.directory)
  or_raise no_selected_business (resolve_selected_business directory context)

abbrev pub write_action : GovernanceAction → Gov (Unit {0})
write_action a = modify (λ s. record s { actions = put (λ x. x.id == a.id) a s.actions })
