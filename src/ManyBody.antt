-- ===== src/ManyBody.antt =====
-- The many-body stage (src/material_agent/many_body).
pub mod Routing
