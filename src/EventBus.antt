-- ===== src/EventBus.antt =====
-- internal/services/eventbus.
pub mod DeadLetter
pub mod Local
