-- ===== src/Routing.antt =====
-- routing/routing.service.ts: the choice of a route.
pub mod Costs
pub mod Newest
pub mod Retry
pub mod Rules
pub mod Select
pub mod Stored
pub mod Winner
