-- ===== src/Circuit.antt =====
-- redis/circuit-breaker.service.ts: the circuit of a provider.
pub mod Store
pub mod Breaker
pub mod Expiry
