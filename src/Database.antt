-- ===== src/Database.antt =====
-- The database: its rows, the outbox table, and transactions.
mod Rows
mod Events
mod Transaction
unfoldable pub use Rows.*
unfoldable pub use Events.*
unfoldable pub use Transaction.*
