-- ===== src/Lib.antt =====
-- The SMS platform backend: messages, money and delivery.
--
-- A message is submitted over HTTP, reserves its price in the wallet of its tenant, is routed, is
-- dispatched to a provider over HTTP or SMPP, and ends as delivered or failed. Every step is a
-- PostgreSQL transaction that also writes its next event into an outbox; a relay publishes the
-- outbox to Kafka, whose consumers are the handlers of the workflow.
--
-- The parts, and the files that model them (paths from the repository's root):
--   Base        Shared helpers: tests on numbers, lists, integers, errors and results.
--   Status      src/messages/messages.types.ts: statuses, transitions, composite identity.
--   Database    The tables of migrations/001_init.sql as lists of records, and `withTransaction` of
--               src/database/database.service.ts: a body that throws leaves the tables as they were.
--   Bigint      What JavaScript does with the decimal texts of BIGINT columns (Joins for sums).
--   Wallet      `ledgerExists`, `applyWalletLedger` and its three callers in
--               src/messages/messages.service.ts; Effects has what a call does, Joined what becomes
--               of sums, Sums the sum of the ledger.
--   Messages    `getMessageRow`, `patchMessage`, `transitionMessage` and `logEvent` of the same file,
--               with the trigger `enforce_message_state_transition`.
--   Outbox      `enqueue` of src/outbox/outbox.service.ts, and `flushBatch` of
--               src/outbox/outbox-relay.service.ts (Relay) over a broker as an interface; Attempts
--               and Flushed have what it does with an event.
--   Interleaving  The handlers, the delivery reports and the submissions at work at the same time:
--               Tasks has the transactions that a handler decides on for a message as it was read,
--               and the steps of the system; Reachable what holds in every state; Handled says that
--               a handler that runs alone is a run of the system.
--   Fraud       src/fraud/fraud.service.ts: the rules and their cache (Rules), `evaluate` and
--               `enforceSubmission` (Evaluate), the consumers (Watch), over the commands of Redis.
--   Workflow    The four handlers of src/messages/message-workflow.service.ts, over an interface of
--               the services they call (Workflow/Services).
--   Submission  `submitMessageWithContext` of src/messages/messages.service.ts with its helpers:
--               Content (phone numbers, parts), Pricing, Prepare (the checks before the
--               transaction, over an interface of services), Accept (the transaction), and the
--               theorems in Repeats, Books, Outcome and Charge.
--   Dlr         `correlateMessageForDlr` (Correlate, with the theorem on its choice in Choice) and
--               src/dlr/dlr.processor.service.ts (Processor; Books for the invariant, Delivered
--               for a delivered report), and src/dlr/dlr.service.ts (Accept, Again). Parsing a number,
--               a time or a digest out of a text is a parameter.
--   Circuit     src/redis/circuit-breaker.service.ts (Breaker) over the Redis commands as an
--               interface (Store) with the laws of expiry; Expiry has what an open circuit does.
--   Providers   src/providers/providers.service.ts: the admission of a dispatch and the record of its
--               result, over Circuit and RateLimit.
--   Connectors  src/connectors/http-provider.service.ts (Http) and src/connectors/smpp.service.ts
--               (Smpp): the results by the provider's answer, and the pool of sessions (Pool);
--               Unknown follows a result that nobody knows into the workflow.
--   Auth        src/auth/auth.service.ts and src/common/guards: API keys (Keys), what becomes of them
--               (Revoked, Issued), sessions (Sessions) and their switches (Switched), and the guards
--               that admit a request (Guards, Admitted). scrypt, random texts, and the signing of
--               tokens are parameters.
--   Strings     JavaScript's operations on strings that several services use.
--   Templates   src/templates/templates.service.ts: the versions of a template,
--               `resolveTemplate`, and the merge fields with `render` (Merge, Rendered).
--   Routing     `selectRoute` of src/routing/routing.service.ts (Select), for the rules, costs and
--               metrics that it has read; scores are exact, in ten-thousandths.
--               `getUnitCosts` (Costs), and the cost that it finds (Newest); `getRetryPolicy` (Retry);
--               `getRules` with its cache (Rules), and where a chosen rule stands (Stored).
--   RateLimit   The token bucket of src/redis/rate-limit.service.ts (Bucket), with tokens counted in
--               parts of a refill period so that no fraction is lost; Grants is about its limits.
--   Billing     The invariant that ties messages and ledger together (Billing/Books), and
--               its lemmas for the steps of a transaction (Writes, Settle, Steps).
--   Tests       Concrete tables, payloads and services, and the theorems applied to them.
--
-- How the state corresponds: `Db` has one field per table. A query that selects one row is the
-- first row of the list with the condition; an UPDATE under a key changes the first such row, as
-- the tables have unique keys there. `Tx A` is the body of a transaction, from the tables to a
-- value with the tables it leaves, or to an exception. Money is ℤ and counters are ℕ. pg returns a
-- BIGINT column as its decimal text, so that the balances of a wallet are computed as JavaScript
-- computes with texts and numbers (Bigint), in 64 bits where PostgreSQL takes them back; elsewhere
-- the model has no overflow, and numbers are exact as those of JavaScript are up to 2^53. Strings that the code only compares (uuids, keys by template) are numbers or
-- constructors; strings that it looks into are lists of UTF-16 code units. A transaction sees one
-- clock, as now() and CURRENT_DATE are fixed in it, and Date.now() is read as the same clock.
-- Services that a handler calls have a state of their own; their errors are values.
--
-- Every function of the model is total, by structural recursion. Two have fuel: `pieces`, which scans
-- a template, the length of the text (Templates/Rendered shows it to be enough), and `digits` one
-- more than the number that it writes.
--
-- The handlers of Workflow and Dlr run from their first read to their end without another between;
-- Interleaving takes them apart into a read and a transaction, and a task keeps the row that its
-- handler read. A transaction itself is one step, as the rows that it changes are locked until it
-- ends and the rows that it inserts are guarded by unique keys.
--
-- Not modelled: the administration of routing rules, prices and retry policies (Workflow takes
-- routes and retry policies through its interface of services); sockets and their
-- timers; Kafka and the delivery of its events to the consumers (any handler may run
-- at any time); the expiry of the rate limiter's keys and the rounding of its fractions in Lua; the
-- casts, lengths and foreign keys at which an INSERT of a report would throw; HTTP controllers, CRUD modules (contacts, campaigns, tenants), metrics, logging, error texts and
-- latencies; and the web front end under control-plane.
pub mod Auth
pub mod Base
pub mod Bigint
pub mod Billing
pub mod Circuit
pub mod Connectors
pub mod Database
pub mod Dlr
pub mod Fraud
pub mod Interleaving
pub mod Messages
pub mod Outbox
pub mod Providers
pub mod RateLimit
pub mod Routing
pub mod Status
pub mod Strings
pub mod Submission
pub mod Templates
pub mod Tests
pub mod Wallet
pub mod Workflow
