-- ===== src/Tasks.antt =====
-- Tasks, their dependencies and their life cycle (apps/api/src/foundora/tasks).
pub mod Model
pub mod Cycle
pub mod Service
pub mod Dependencies
pub mod Lifecycle
mod Examples
