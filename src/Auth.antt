-- ===== src/Auth.antt =====
-- auth/auth.service.ts and common/guards: API keys, sessions and the admission of requests.
pub mod Keys
pub mod Revoked
pub mod Issued
pub mod Sessions
pub mod Guards
pub mod Switched
pub mod Admitted
