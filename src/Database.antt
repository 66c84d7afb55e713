-- ===== src/Database.antt =====
-- internal/database: the circuit breaker in front of a database.
pub mod Breaker
