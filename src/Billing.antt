-- ===== src/Billing.antt =====
-- How the ledger and the messages agree: what the ledger has reserved for a tenant is what its open
-- messages hold. The operations are those of messages/messages.service.ts and its callers.
pub mod Books
pub mod Writes
pub mod Settle
pub mod Steps
