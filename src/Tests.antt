-- ===== src/Tests.antt =====
-- Runs of the definitions on concrete inputs, and each theorem at one of them.
mod Orchestrator
mod Gateway
pub mod Service
mod Database
mod Dft
mod Companion
mod Screening
mod Retrieval
mod ManyBody
mod Preflight
