-- ===== src/Governance.antt =====
-- The policy, risk and approval engine (apps/api/src/foundora/governance).
pub mod Registry
pub mod Model
pub mod Decision
pub mod Service
mod Examples
