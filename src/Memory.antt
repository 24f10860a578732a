-- ===== src/Memory.antt =====
-- The memory system (memory/service.py of the API).
pub mod Model
pub mod Text
pub mod Session
pub mod Sources
pub mod Policy
pub mod Accept
pub mod Propose
pub mod Decide
pub mod Retrieve
pub mod Constraints
pub mod Runs
pub mod Histories
pub mod Lasting
pub mod Settled
pub mod Decided
pub mod Outcome
pub mod Invalidated
pub mod Audit
mod Examples
