-- ===== src/Ws.antt =====
-- internal/services/ws.
pub mod Hub
