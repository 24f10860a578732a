-- ===== src/Workflows.antt =====
-- Workflow definitions (workflows/definition.py of the API).
pub mod Json
pub mod Definition
mod Examples
