-- ===== src/Retrieval.antt =====
-- The retrieval of candidates from databases (src/material_agent/retrieval).
pub mod Ranking
