-- ===== src/Coherence.antt =====
-- The coherence evaluation service (hub/coherence).
pub mod ReplayGuard
