-- ===== src/Tests.antt =====
-- Tests and instances of the theorems at concrete data.
mod Sample
mod WalletTests
mod PipelineTests
mod InterleavingTests
mod OutboxTests
mod FraudTests
mod ConnectorTests
mod TemplateTests
mod AuthTests
mod SubmissionTests
mod DeliveryTests
mod RoutingTests
mod RateLimitTests
