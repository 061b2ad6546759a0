-- ===== src/Screening.antt =====
-- The screening of candidates with machine-learned models (src/material_agent/ml_screening).
pub mod Selection
