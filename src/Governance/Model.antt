-- ===== src/Governance/Model.antt =====
-- models.py: the rows of governance, and the session that governance/service.py writes to. A status
-- or an autonomy level is one of the values that the table's check constraint lists.
use foundora_ai.Base.{ℕ, String, Bool, Option, List, Uuid, Datetime, Details}
use foundora_ai.Business.{Directory}
use foundora_ai.Events.Contracts.{EventError}
use foundora_ai.Events.Model.{Outbox}
use foundora_ai.Governance.Registry.{RiskClass, ClassificationError}

pub record Policy : Type 0 where
  pub id : String
  pub display_name : String
  pub enabled : Bool
  pub current_version : ℕ

pub record PolicyVersion : Type 0 where
  pub id : Uuid
  pub policy_id : String
  pub version : ℕ
  pub description : String

pub record GlobalGovernanceControl : Type 0 where
  pub kill_switch_enabled : Bool
  pub reason : Option String
  pub revision : ℕ
  pub updated_by_owner_id : Option Uuid
  pub updated_at : Datetime

pub data AutonomyLevel : Type 0 where
  level_off recommend assisted autonomous_low_risk : AutonomyLevel

pub record GovernanceSetting : Type 0 where
  pub business_id : Uuid
  pub autonomy_level : AutonomyLevel
  pub daily_spend_limit_microusd : ℕ
  pub per_action_spend_limit_microusd : ℕ
  pub revision : ℕ
  pub updated_by_owner_id : Option Uuid
  pub updated_at : Datetime

pub record GovernanceToolPermission : Type 0 where
  pub business_id : Uuid
  pub tool_id : String
  pub enabled : Bool
  pub revision : ℕ
  pub updated_by_owner_id : Option Uuid
  pub updated_at : Datetime

pub data ActionStatus : Type 0 where
  approval_required approved rejected authorized denied blocked : ActionStatus

pub record GovernanceAction : Type 0 where
  pub id : Uuid
  pub business_id : Uuid
  pub policy_version_id : Uuid
  pub workflow_run_id : Option Uuid
  pub workflow_step_key : Option String
  pub action_type : String
  pub actor_type : String
  pub actor_id : Option String
  pub tool_id : Option String
  pub risk_class : RiskClass
  pub execution_mode : String
  pub data_classification : String
  pub requested_spend_microusd : ℕ
  pub frequency_key : Option String
  pub target : Option String
  pub status : ActionStatus
  pub rationale : String
  pub idempotency_key : String
  pub created_by_owner_id : Option Uuid
  pub created_at : Datetime
  pub updated_at : Datetime
  pub authorized_at : Option Datetime

pub data ApprovalStatus : Type 0 where
  approval_pending approval_approved approval_rejected approval_cancelled : ApprovalStatus

pub record ApprovalRequest : Type 0 where
  pub id : Uuid
  pub action_id : Uuid
  pub business_id : Uuid
  pub status : ApprovalStatus
  pub prompt : String
  pub decision_reason : Option String
  pub requested_by_owner_id : Option Uuid
  pub decided_by_owner_id : Option Uuid
  pub requested_at : Datetime
  pub decided_at : Option Datetime

pub record GovernanceAuditEvent : Type 0 where
  pub id : Uuid
  pub business_id : Option Uuid
  pub action_id : Option Uuid
  pub approval_request_id : Option Uuid
  pub event_type : String
  pub actor_owner_id : Option Uuid
  pub idempotency_key : Option String
  pub details : Details
  pub created_at : Datetime

-- The exceptions of the service, and those that it lets through.
pub data GovernanceError : Type 0 where
  no_selected_business : GovernanceError
  policy_unavailable controls_unavailable : GovernanceError
  not_found : GovernanceError
  key_reused already_decided : GovernanceError
  settings_changed permission_changed controls_changed reason_required : GovernanceError
  unclassified : ClassificationError → GovernanceError
  unpublished : EventError → GovernanceError

-- The tables. `clock k` is the k-th reading of the clock, and `ticks` counts the readings.
pub record Database : Type 0 where
  pub directory : Directory
  pub policies : List Policy
  pub policy_versions : List PolicyVersion
  pub controls : Option GlobalGovernanceControl
  pub settings : List GovernanceSetting
  pub permissions : List GovernanceToolPermission
  pub actions : List GovernanceAction
  pub approvals : List ApprovalRequest
  pub audits : List GovernanceAuditEvent
  pub outbox : Outbox
  pub clock : ℕ → Datetime
  pub ticks : ℕ
