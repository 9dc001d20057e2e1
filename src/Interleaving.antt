-- ===== src/Interleaving.antt =====
-- The workers of the pipeline at work at the same time. A handler of
-- messages/message-workflow.service.ts or of dlr/dlr.processor.service.ts reads a message, decides
-- on a transaction for the row as it was read, and runs it later; before that, other workers,
-- submissions (messages/messages.service.ts) and repeated deliveries of the same event may run
-- theirs, and the process may stop.
pub mod Tasks
pub mod Bodies
pub mod Fresh
pub mod Kept
pub mod Reports
pub mod Sound
pub mod Reachable
pub mod Handlers
pub mod Handled
