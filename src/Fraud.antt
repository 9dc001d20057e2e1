-- ===== src/Fraud.antt =====
-- fraud/fraud.service.ts: the rules of a tenant against a message.
pub mod Rules
pub mod Evaluate
pub mod Verdict
pub mod Created
pub mod Watch
