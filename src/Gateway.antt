-- ===== src/Gateway.antt =====
-- The Materials Gateway (src/material_agent/gateway).
pub mod Model
pub mod Grants
pub mod Credit
pub mod Equality
pub mod Memory
pub mod Repository
pub mod Results
pub mod Revisions
pub mod Service
pub mod Companion
pub mod Database
