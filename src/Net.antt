-- ===== src/Net.antt =====
-- pkg/net: the circuit breaker and the retry loop that guard outgoing calls.
pub mod Breaker
pub mod Retry
