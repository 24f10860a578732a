-- ===== src/ModelGateway.antt =====
-- The routing of model calls (model_gateway/routing.py and model_gateway/registry.py of the API).
pub mod Routing
mod Examples
