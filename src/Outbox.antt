-- ===== src/Outbox.antt =====
-- outbox/outbox.service.ts `enqueue`: an INSERT that does nothing where the day already holds the
-- deduplication key.
pub mod Relay
pub mod Attempts
pub mod Relayed
pub mod Selected
pub mod Flushed
pub mod Enqueued
use sms_platform_backend.Base.{
  ℕ, ◌+◌, Bool, ◌&&◌, Option, [], ◌∷◌, ◌++◌, ◌==◌, if◌then◌else◌, same, get_or, any_row, ok,
}
use sms_platform_backend.Database.{
  Db, Clock, Tx, KafkaTopic, OutboxPayload, OutboxRow, DedupeKey, DedupeKey-discrete, waiting,
}

-- `OutboxEventInput`
pub record OutboxEventInput : Type 0 where
  pub topic : KafkaTopic
  pub partition : ℕ
  pub dedupe : DedupeKey
  pub content : OutboxPayload
  pub not_before : Option ℕ

abbrev pub has_dedupe : ℕ → DedupeKey → OutboxRow → Bool
has_dedupe day k row = row.event_date == day && same DedupeKey-discrete row.dedupe_key k

unfoldable pub new_row : Clock → OutboxEventInput → ℕ → OutboxRow
new_row c event event_id = record {
  event_date = c.today;
  event_id = event_id;
  topic_name = event.topic;
  partition_key = event.partition;
  dedupe_key = event.dedupe;
  payload = event.content;
  outbox_status = waiting;
  retry_count = 0;
  next_attempt_at = get_or event.not_before c.now;
  created_at = c.now;
}

-- The outbox with the new row.
abbrev pub enqueued : Clock → OutboxEventInput → Db → Db
enqueued c event db = record db {
  outbox_events = db.outbox_events ++ new_row c event db.next_event_id ∷ [];
  next_event_id = db.next_event_id + 1;
}

unfoldable pub enqueue : Clock → OutboxEventInput → Tx (Unit {0})
unfolding new_row
enqueue c event db =
    if any_row (has_dedupe c.today event.dedupe) db.outbox_events
    then ok (tt, db)
    else ok (tt, enqueued c event db)
