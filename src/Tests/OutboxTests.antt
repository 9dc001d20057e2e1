-- ===== src/Tests/OutboxTests.antt =====
-- The relay with a broker that remembers the topic and the key of what it accepts.
use sms_platform_backend.Base.{
  ℕ, ◌+◌, ◌*◌, ◌≡◌, refl, ap, subst, true, false, Bool, ◌&&◌, ◌||◌, List, [], ◌∷◌, arith, ltb, leb,
  ◌==◌, length, any_row, same, same_iff, ok, All,
}
use sms_platform_backend.Database.{
  Db, with_transaction, KafkaTopic, OutboxRow, sms_accepted, waiting, message_event, accepted_key,
}
use sms_platform_backend.Outbox.Relay.{Broker, RelayConfig, is_due, flush_batch}
use sms_platform_backend.Outbox.Attempts.{failed_attempts, failed_attempts-is_due}
use sms_platform_backend.Outbox.Relayed.{IsBroker, IsListed, IsRelayed}
use sms_platform_backend.Outbox.Flushed.{flush_batch-IsRelayed}
use sms_platform_backend.Tests.Sample.{ref, db, clock, payload}

KafkaTopic-discrete : Discrete KafkaTopic
KafkaTopic-discrete = hlevel

abbrev Log : Type 0
Log = List (KafkaTopic × ℕ)

abbrev is_entry : KafkaTopic → ℕ → KafkaTopic × ℕ → Bool
is_entry t p e = same KafkaTopic-discrete e.0 t && e.1 == p

abbrev memory : Broker Log
memory = record {
  publish = λ t p v k. (ok tt, (t, p) ∷ k);
  holds = λ k t p v. any_row (is_entry t p) k;
  time = length;
}

memory-IsBroker : IsBroker memory
memory-IsBroker = record {
  acked = λ t p v k k' u e.
      subst (λ l. any_row (is_entry t p) l ≡ true) (ap (λ w. w.1) e) (first_lem t p k);
  kept = λ t t' p p' v v' k h. kept_lem t p (is_entry t p (t', p')) k h;
}
  where
    first_lem : (t : KafkaTopic) (p : ℕ) (k : Log) → any_row (is_entry t p) ((t, p) ∷ k) ≡ true
    first_lem t p k = ground (arith, (same_iff KafkaTopic-discrete t t).1 refl)

    kept_lem :
        (t : KafkaTopic) (p : ℕ) (b : Bool) (k : Log)
        → any_row (is_entry t p) k ≡ true
        → (b || any_row (is_entry t p) k) ≡ true
    kept_lem t p true k h = refl
    kept_lem t p false k h = h

abbrev event : OutboxRow
event = record {
  event_date = 20000;
  event_id = 1;
  topic_name = sms_accepted;
  partition_key = 7;
  dedupe_key = accepted_key ref;
  payload = message_event payload;
  outbox_status = waiting;
  retry_count = 0;
  next_attempt_at = 4000;
  created_at = 4000;
}

abbrev stored : Db
stored = record db { outbox_events = event ∷ []; next_event_id = 2 }

abbrev config : RelayConfig
config = record { batch_size = 10; publish_lease_seconds = 60 }

abbrev flushed : Db × Log
flushed = flush_batch memory config (λ r. false) clock (stored, [])

stored-IsRelayed : IsRelayed memory stored.outbox_events stored.next_event_id []
stored-IsRelayed = record {
  keyed = ((event, refl, (refl, refl, refl, refl, refl)), tt);
  event_ids = (omega arith, tt);
  sent = ((λ h. absurd cc), tt);
}

flush_batch-IsRelayed_example :
    IsRelayed memory flushed.0.outbox_events flushed.0.next_event_id flushed.1
    × All (IsListed flushed.0.outbox_events) stored.outbox_events
flush_batch-IsRelayed_example =
    flush_batch-IsRelayed memory memory-IsBroker config (λ r. false) clock stored flushed.0 []
      flushed.1 stored-IsRelayed refl

failed_attempts-is_due_example :
    is_due 30000 (failed_attempts (1000 ∷ 9000 ∷ []) event)
    ≡ (ltb (0 + 1 + 1) 10 && leb (9000 + 5000 * (0 + 1 + 1)) 30000)
failed_attempts-is_due_example = failed_attempts-is_due (1000 ∷ []) 9000 30000 event

published_once : flushed.1 ≡ (sms_accepted, 7) ∷ []
unfolding flush_batch with_transaction
published_once = refl
