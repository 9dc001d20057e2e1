-- ===== src/Outbox/Relay.antt =====
-- outbox/outbox-relay.service.ts `flushBatch`: a transaction that takes a batch of due events under
-- a lease, and then one call of the broker for each, with the UPDATE that follows it. Metrics and
-- the log are left out.
use Prim.Native.Nat.{min, max}
use sms_platform_backend.Base.{
  ℕ, zero, suc, ◌+◌, ◌*◌, Bool, true, false, ◌&&◌, not, List, [], ◌∷◌, ◌==◌, ltb, leb,
  if◌then◌else◌, ok, err, Result, update_first, map_rows, keep_rows,
}
use sms_platform_backend.Database.{
  Db, Clock, Tx, with_transaction, KafkaTopic, OutboxPayload, OutboxRow, OutboxStatus, waiting,
  publishing, published, abandoned,
}

-- The broker behind kafka/kafka.service.ts, with its state `K`: a call may throw, time passes in
-- it, and the broker holds records of a topic, a key and a value.
pub record Broker (K : Type 0) : Type 0 where
  pub publish : KafkaTopic → ℕ → OutboxPayload → K → Result (Unit {0}) × K
  pub holds : K → KafkaTopic → ℕ → OutboxPayload → Bool
  pub time : K → ℕ

pub record RelayConfig : Type 0 where
  pub batch_size : ℕ
  pub publish_lease_seconds : ℕ

abbrev pub is_event : ℕ → ℕ → OutboxRow → Bool
is_event date id row = row.event_date == date && row.event_id == id

abbrev pub is_publishing : OutboxStatus → Bool
is_publishing publishing = true
is_publishing _ = false

abbrev pub is_waiting : OutboxStatus → Bool
is_waiting waiting = true
is_waiting _ = false

-- `SET status = 'pending' WHERE status = 'publishing' AND next_attempt_at <= now()`
unfoldable pub recovered : ℕ → OutboxRow → OutboxRow
recovered now row =
    if is_publishing row.outbox_status && leb row.next_attempt_at now
    then record row { outbox_status = waiting }
    else row

-- `WHERE status = 'pending' AND next_attempt_at <= now()`
abbrev pub is_due : ℕ → OutboxRow → Bool
is_due now row = is_waiting row.outbox_status && leb row.next_attempt_at now

-- `ORDER BY created_at`
unfoldable pub insert_by_age : OutboxRow → List OutboxRow → List OutboxRow
insert_by_age row [] = row ∷ []
insert_by_age row (r ∷ rs) =
    let rest = insert_by_age row rs in
    if ltb r.created_at row.created_at then r ∷ rest else row ∷ r ∷ rs

unfoldable pub by_age : List OutboxRow → List OutboxRow
unfolding insert_by_age
by_age [] = []
by_age (r ∷ rs) = insert_by_age r (by_age rs)

-- `LIMIT $1`
abbrev pub limit : ℕ → List OutboxRow → List OutboxRow
limit zero rs = []
limit (suc n) [] = []
limit (suc n) (r ∷ rs) = r ∷ limit n rs

-- The rows of the batch; `locked` are those that another transaction holds (SKIP LOCKED).
unfoldable pub selected : RelayConfig → (OutboxRow → Bool) → ℕ → List OutboxRow → List OutboxRow
unfolding by_age
selected config locked now rows =
    limit config.batch_size (by_age (keep_rows (λ r. is_due now r && not (locked r)) rows))

abbrev pub leased : RelayConfig → ℕ → OutboxRow → OutboxRow
leased config now row = record row {
  outbox_status = publishing;
  next_attempt_at = now + config.publish_lease_seconds * 1000;
}

-- `UPDATE outbox_events SET .. WHERE event_date = $1 AND id = $2`
unfoldable pub update_event : OutboxRow → (OutboxRow → OutboxRow) → Db → Db
update_event row f db = record db {
  outbox_events = update_first (is_event row.event_date row.event_id) f db.outbox_events;
}

unfoldable pub lease_rows : RelayConfig → ℕ → List OutboxRow → Db → Db
unfolding update_event
lease_rows config now [] db = db
lease_rows config now (r ∷ rs) db = lease_rows config now rs (update_event r (leased config now) db)

-- The transaction of `flushBatch`.
unfoldable pub take_batch : RelayConfig → (OutboxRow → Bool) → Clock → Tx (List OutboxRow)
unfolding recovered selected lease_rows
take_batch config locked c db =
    let db' : Db = record db { outbox_events = map_rows (recovered c.now) db.outbox_events } in
    let rows = selected config locked c.now db'.outbox_events in
    ok (rows, lease_rows config c.now rows db')

abbrev pub marked_published : OutboxRow → OutboxRow
marked_published row = record row { outbox_status = published }

-- `LEAST(300, GREATEST(5, (retry_count + 1) * 5))`
unfoldable pub backoff_seconds : ℕ → ℕ
backoff_seconds attempts = min 300 (max 5 ((attempts + 1) * 5))

unfoldable pub marked_failed : ℕ → OutboxRow → OutboxRow
unfolding backoff_seconds
marked_failed now row = record row {
  outbox_status = if leb 10 (row.retry_count + 1) then abandoned else waiting;
  retry_count = row.retry_count + 1;
  next_attempt_at = now + backoff_seconds row.retry_count * 1000;
}

module _ {K : Type 0} (broker : Broker K) where
  -- The UPDATE after a call of the broker.
  unfoldable pub after_publish : OutboxRow → Result (Unit {0}) × K → Db → Db × K
  unfolding marked_failed update_event
  after_publish row (ok done, k) db = (update_event row marked_published db, k)
  after_publish row (err e, k) db = (update_event row (marked_failed (broker.time k)) db, k)

  unfoldable pub flush_row : OutboxRow → Db × K → Db × K
  unfolding after_publish
  flush_row row (db, k) =
      after_publish row (broker.publish row.topic_name row.partition_key row.payload k) db

  unfoldable pub flush_rows : List OutboxRow → Db × K → Db × K
  unfolding flush_row
  flush_rows [] w = w
  flush_rows (r ∷ rs) w = flush_rows rs (flush_row r w)

  unfoldable pub flush_taken : Result (List OutboxRow) × Db → K → Db × K
  unfolding flush_rows
  flush_taken (ok rows, db) k = flush_rows rows (db, k)
  flush_taken (err e, db) k = (db, k)

  -- `flushBatch`
  unfoldable pub flush_batch : RelayConfig → (OutboxRow → Bool) → Clock → Db × K → Db × K
  unfolding take_batch flush_taken
  flush_batch config locked c (db, k) =
      flush_taken (with_transaction (take_batch config locked c) db) k
