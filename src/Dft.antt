-- ===== src/Dft.antt =====
-- The control plane of DFT calculations (src/material_agent/dft).
pub mod Workflow
pub mod ClaimGate
pub mod Preflight
