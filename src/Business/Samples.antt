-- ===== src/Business/Samples.antt =====
-- A row of owner_sessions for the runs on concrete data.
use foundora_ai.Base.{Option, none, Uuid}
use foundora_ai.Business.{OwnerSession}

-- A session of an owner, its other columns set to a fixed value.
abbrev pub session_of : Uuid → Uuid → Option Uuid → OwnerSession
session_of id owner_id selected_business_id = record {
  id = id;
  owner_id = owner_id;
  token_hash = "token";
  csrf_hash = "csrf";
  created_at = 10;
  last_seen_at = 10;
  idle_expires_at = 1800000010;
  expires_at = 28800000010;
  revoked_at = none;
  user_agent = none;
  selected_business_id = selected_business_id;
}
