-- ===== src/Business.antt =====
-- Businesses and their owner's sessions (apps/api/src/foundora/business/context.py, and the rows of
-- models.py that it reads).
pub mod Samples
use foundora_ai.Base.{
  String, Bool, Option, none, some, List, ◌&&◌, ◌==◌, nat_eq, option_eq, find, Uuid, Datetime,
}

pub record OwnerSession : Type 0 where
  pub id : Uuid
  pub owner_id : Uuid
  pub token_hash : String
  pub csrf_hash : String
  pub created_at : Datetime
  pub last_seen_at : Datetime
  pub idle_expires_at : Datetime
  pub expires_at : Datetime
  pub revoked_at : Option Datetime
  pub user_agent : Option String
  pub selected_business_id : Option Uuid

pub record Business : Type 0 where
  pub id : Uuid
  pub owner_id : Uuid
  pub name : String
  pub archived_at : Option Datetime

pub record Directory : Type 0 where
  pub sessions : List OwnerSession
  pub businesses : List Business

-- `AuthContext`, by the ids of its owner and its session.
pub record AuthContext : Type 0 where
  pub owner_id : Uuid
  pub session_id : Uuid

abbrev pub is_none {ℓ} : {A : Type ℓ} → Option A → Bool
is_none none = Bool.true
is_none (some a) = Bool.false

-- The join and the conditions of the query. A session's id and a business's id are primary keys.
abbrev pub selected_by : Directory → AuthContext → Business → Bool
selected_by d context b =
    elim (find (λ s. s.id == context.session_id && s.owner_id == context.owner_id) d.sessions) [
      | none ↦ Bool.false
      | some s ↦
          s.selected_business_id == some b.id
          && (b.owner_id == context.owner_id && is_none b.archived_at)
    ]

-- `none` where the source raises `NoSelectedBusiness`.
unfoldable pub resolve_selected_business : Directory → AuthContext → Option Business
resolve_selected_business d context = find (selected_by d context) d.businesses
