-- ===== src/Orchestrator.antt =====
-- The durable control state of the orchestrator (src/material_agent/orchestrator).
pub mod Status
pub mod Transitions
pub mod Store
pub mod History
