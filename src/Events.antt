-- ===== src/Events.antt =====
-- The internal event bus (apps/api/src/foundora/events).
pub mod Contracts
pub mod Model
pub mod Publish
pub mod Delivery
pub mod Invariant
mod Examples
