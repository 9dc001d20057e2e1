-- ===== src/Workflow.antt =====
-- messages/message-workflow.service.ts: the consumers of the pipeline's Kafka topics.
pub mod Services
pub mod Accept
pub mod Dispatch
pub mod Results
pub mod Bodies
pub mod FraudOutcomes
pub mod Books
