-- ===== src/Submission.antt =====
-- The submission of a message: `submitMessageWithContext` of messages/messages.service.ts.
pub mod Content
pub mod Pricing
pub mod Services
pub mod Prepare
pub mod Accept
pub mod Repeats
pub mod Books
pub mod Outcome
pub mod Charge
