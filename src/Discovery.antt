-- ===== src/Discovery.antt =====
-- internal/services/discovery.
pub mod Registry
