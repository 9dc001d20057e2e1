-- ===== src/Connectors.antt =====
-- connectors/http-provider.service.ts and connectors/smpp.service.ts: what a provider's answer means,
-- and the pool of SMPP sessions.
pub mod Http
pub mod Smpp
pub mod Pool
pub mod Unknown
