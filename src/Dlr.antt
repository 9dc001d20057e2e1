-- ===== src/Dlr.antt =====
-- Delivery reports: `correlateMessageForDlr` of messages/messages.service.ts, dlr/dlr.service.ts and
-- dlr/dlr.processor.service.ts.
pub mod Correlate
pub mod Choice
pub mod Processor
pub mod Books
pub mod Accept
pub mod Again
pub mod Delivered
