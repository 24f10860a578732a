-- ===== src/Auth/Model.antt =====
-- The owner (models.py), the settings of a session (config.py), and the state of auth/service.py.
use foundora_ai.Base.{ℕ, String, Bool, Option, List, Uuid, Datetime}
use foundora_ai.Business.{OwnerSession}

pub record Owner : Type 0 where
  pub id : Uuid
  pub singleton_key : ℕ
  pub email : String
  pub password_hash : String
  pub created_at : Datetime
  pub updated_at : Datetime
  pub password_changed_at : Datetime

pub record Settings : Type 0 where
  pub session_idle_minutes : ℕ
  pub session_absolute_minutes : ℕ

-- What the service uses of other code: SHA-256, `casefold`, the full match of the pattern
-- `^[^\s@]+@[^\s@]+\.[^\s@]+$`, and the password hasher. `verify_and_update` is none where it raises.
-- `dummy_hash` is the hash that stands in for an owner who does not exist.
pub record Crypto : Type 0 where
  pub digest : String → String
  pub casefold : String → String
  pub is_email : String → Bool
  pub hash : String → String
  pub verify_and_update : String → String → Option (Bool × Option String)
  pub dummy_hash : String

pub data AuthError : Type 0 where
  authentication_failed owner_exists no_owner invalid_email : AuthError
  password_too_short password_too_long : AuthError

-- The tables. `tokens k` is the k-th token of `secrets.token_urlsafe`, and `drawn` counts them.
pub record AuthStore : Type 0 where
  pub owners : List Owner
  pub sessions : List OwnerSession
  pub next_uuid : Uuid
  pub tokens : ℕ → String
  pub drawn : ℕ
  pub clock : ℕ → Datetime
  pub ticks : ℕ
