-- ===== src/Orchestrator/History.antt =====
-- What sequences of calls of OrchestratorRepository (src/material_agent/orchestrator/storage.py) do to
-- a row, one module for each table.
pub mod Columns
pub mod Runs
pub mod Approvals
pub mod Keeping
pub mod Inserting
pub mod Records
pub mod Replays
pub mod Jobs
