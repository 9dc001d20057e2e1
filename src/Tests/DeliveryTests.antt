-- ===== src/Tests/DeliveryTests.antt =====
-- Delivery reports and circuits on concrete inputs.
use sms_platform_backend.Base.{
  ℕ, ◌+◌, ◌*◌, ◌≤◌, ◌<◌, ◌≡◌, refl, ◌⊎◌, true, false, Option, none, some, [], ◌∷◌, ◌++◌, ◌==◌, ltb,
  err, circuit_open_error, ok, any_row, find_first, update_first, length, if◌then◌else◌, arith, All,
  keep_rows, ap, ◌∙◌,
}
use sms_platform_backend.Status.{provider_accepted, delivered, same_ref}
use sms_platform_backend.Database.{
  Db, MessageRow, WebhookRow, http, is_failed, is_delivered, is_unknown, dlr_key, with_transaction,
  debited, text,
}
use sms_platform_backend.Messages.{find_message}
use sms_platform_backend.Billing.Books.{Balanced}
use sms_platform_backend.Dlr.Correlate.{
  correlate_message, is_direct, latest_sent, later_sent, DlrInput, is_candidate, ranks_before,
  confidence, fallback_match, chosen, pull_best, place, settled_by,
}
use sms_platform_backend.Dlr.Choice.{fallback_match_lem}
use sms_platform_backend.Strings.{codes}
use sms_platform_backend.Fraud.Evaluate.{lowered}
use sms_platform_backend.Outbox.{has_dedupe, enqueue}
use sms_platform_backend.Dlr.Accept.{
  Report, TextWriters, normalize_status, is_callback, callback_of, renewed, upserted, announce,
  store_under, store_report, accept_from, accept_webhook,
}
use sms_platform_backend.Dlr.Delivered.{with_reports, process_webhook_delivers}
use sms_platform_backend.Dlr.Again.{accept_webhook_again}
use sms_platform_backend.Dlr.Processor.{TextReaders, dlr_input, process_webhook}
use sms_platform_backend.Dlr.Books.{IsKeyed, process_webhook-Balanced}
use sms_platform_backend.Circuit.Store.{CircuitSnapshot, Redis, RedisExpires}
use sms_platform_backend.Circuit.Breaker.{
  CircuitConfig, allow_dispatch, register_failure, get_snapshot,
}
use sms_platform_backend.Circuit.Expiry.{failure_expires}
use sms_platform_backend.Providers.{
  ProviderWorld, assert_provider_dispatch_allowed, record_dispatch_result,
}
use sms_platform_backend.Providers.Blocked.{assert_blocked}
use sms_platform_backend.Tests.Sample.{message_in, db, clock, db-Balanced}

abbrev readers : TextReaders
readers = record {
  sha256 = λ t. 1234;
  to_number = λ t. none;
  to_time = λ t. 4000;
  to_digest = λ t. 5;
}

-- A report that the message failed.
abbrev report : WebhookRow
report = record {
  received_date = 20000;
  webhook_id = 5;
  webhook_provider = 3;
  webhook_tenant = some 1;
  webhook_message = some 99;
  webhook_callback = none;
  webhook_payload = ("to", text (43 ∷ 50 ∷ [])) ∷ [];
  normalized_status = some is_failed;
  processed = false;
  processing_error = none;
}

abbrev reported : Db
reported = record db { dlr_webhooks = report ∷ [] }

reported-IsKeyed : IsKeyed reported
unfolding find_message same_ref
reported-IsKeyed = (refl, tt)

process_webhook-Balanced_example : Balanced (process_webhook readers clock 20000 5 3 reported).1
process_webhook-Balanced_example =
    process_webhook-Balanced readers clock reported db-Balanced reported-IsKeyed 20000 5 3

abbrev sent : MessageRow
sent = record (message_in provider_accepted debited) { sent_at = some 4000 }

abbrev input : DlrInput
input = record {
  dlr_tenant = some 1;
  dlr_provider = 3;
  dlr_provider_message = none;
  dlr_phone = some (43 ∷ 50 ∷ []);
  dlr_sender = none;
  dlr_event_at = some 4500;
  dlr_body_hash = some 1234;
  dlr_campaign = none;
  dlr_route_rule = none;
}

abbrev other_sent : MessageRow
other_sent = record sent { body_hash = none }

fallback_match_lem_example :
    (4 ≤ confidence input sent)
    × All
        (λ r. (r ≡ sent) ⊎ (confidence input r < confidence input sent))
        (keep_rows (is_candidate input 5000 (43 ∷ 50 ∷ [])) (other_sent ∷ sent ∷ []))
unfolding fallback_match is_candidate chosen pull_best confidence place ranks_before settled_by
fallback_match_lem_example =
    fallback_match_lem input 5000 (other_sent ∷ sent ∷ []) (43 ∷ 50 ∷ []) sent refl

-- Keys with the time at which they expire.
abbrev Keys : Type 0
Keys = ℕ → Option (CircuitSnapshot × ℕ)

abbrev live : ℕ → Option (CircuitSnapshot × ℕ) → Option CircuitSnapshot
live now none = none
live now (some (snapshot, end)) = if ltb now end then some snapshot else none

abbrev keys : Redis Keys
keys = record {
  get_snapshot = λ provider now r. live now (r provider);
  set_snapshot = λ provider snapshot ttl at r p.
      if p == provider then some (snapshot, at + ttl * 1000) else r p;
  set_probe = λ provider ttl now r. (true, r);
  delete_probe = λ provider r. r;
}

live-fresh : (now end : ℕ) (s : CircuitSnapshot) → now < end → live now (some (s, end)) ≡ some s
live-fresh now end s h = ground arith

live-expired : (now end : ℕ) (s : CircuitSnapshot) → end ≤ now → live now (some (s, end)) ≡ none
live-expired now end s h = ground arith

own_key : (p : ℕ) (x y : Option (CircuitSnapshot × ℕ)) → (if p == p then x else y) ≡ x
own_key p x y = ground arith

keys-RedisExpires : RedisExpires keys
keys-RedisExpires = record {
  fresh = λ provider snapshot ttl at now r since before.
      ap (live now) (own_key provider (some (snapshot, at + ttl * 1000)) (r provider))
      ∙ live-fresh now (at + ttl * 1000) snapshot before;
  expired = λ provider snapshot ttl at now r over.
      ap (live now) (own_key provider (some (snapshot, at + ttl * 1000)) (r provider))
      ∙ live-expired now (at + ttl * 1000) snapshot over;
}

abbrev config : CircuitConfig
config = record { failure_threshold = 1; open_seconds = 30; half_open_probe_seconds = 5 }

abbrev after_failure : Keys
after_failure = (register_failure keys config 3 1000 (λ p. none)).1

reached : 1 ≤ (get_snapshot keys config 3 1000 (λ p. none)).failure_count + 1
reached = omega arith

abbrev world : ProviderWorld Keys
world = record {
  providers = [];
  smpp_configs = [];
  provider_circuit_state = [];
  provider_health_logs = [];
  circuits = λ p. none;
  global_buckets = λ p. none;
}

abbrev recorded : ProviderWorld Keys
recorded = record_dispatch_result keys config 3 http false none none 1000 world

assert_blocked_example :
    assert_provider_dispatch_allowed keys config 3 100 30999 recorded
    ≡ (err circuit_open_error, recorded)
assert_blocked_example =
    assert_blocked keys keys-RedisExpires config 3 1000 world http none none 100 30999 reached
      (omega arith) (omega arith) (omega arith)

failure_expires_example : allow_dispatch keys config 3 31000 after_failure ≡ (true, after_failure)
failure_expires_example =
    failure_expires keys keys-RedisExpires config 3 1000 (λ p. none) reached (omega arith) 31000
      (omega arith)

-- Numbers for strings by their lengths, which is enough for one callback.
abbrev writers : TextWriters
writers = record { to_lower = lowered; as_id = length }

abbrev callback : Report
callback = record {
  report_payload = ("eventId", text (codes "e1")) ∷ ("status", text (codes "success")) ∷ [];
  request_id = none;
}

abbrev callback_failed : Report
callback_failed = record {
  report_payload = ("eventId", text (codes "e1")) ∷ ("status", text (codes "FAILED")) ∷ [];
  request_id = none;
}

-- The statuses of SMPP for a delivered and an undelivered message are among no words of the code.
smpp_unknown :
    (normalize_status lowered (("status", text (codes "DELIVRD")) ∷ []) ≡ is_unknown)
    × (normalize_status lowered (("status", text (codes "UNDELIV")) ∷ []) ≡ is_unknown)
unfolding normalize_status
smpp_unknown = (refl, refl)

abbrev accepted_once : Db
accepted_once = (accept_webhook writers clock ((codes "p", 3) ∷ []) (codes "p") callback db).1

accept_webhook_again_example :
    (provider : ℕ) × (w : WebhookRow) × (find_first
        (is_callback 20000 provider (some 2))
        accepted_once.dlr_webhooks
      ≡ some w)
    × (any_row (has_dedupe 20000 (dlr_key w.received_date w.webhook_id)) accepted_once.outbox_events
        ≡ true)
    × (accept_webhook writers
          (record clock { now = 7000 })
          ((codes "p", 3) ∷ [])
          (codes "p")
          callback_failed
          accepted_once
        ≡ (
          ok tt,
          record accepted_once {
            dlr_webhooks =
                update_first
                  (is_callback 20000 provider (some 2))
                  (renewed writers callback_failed)
                  accepted_once.dlr_webhooks;
          },
        ))
unfolding accept_webhook accept_from store_report store_under announce upserted callback_of enqueue
    with_transaction
accept_webhook_again_example =
    accept_webhook_again writers clock 7000 ((codes "p", 3) ∷ []) (codes "p") callback
      callback_failed 2 db accepted_once refl refl refl

abbrev delivered_report : WebhookRow
delivered_report = record report { normalized_status = some is_delivered }

abbrev in_flight : MessageRow
in_flight = message_in provider_accepted debited

abbrev flying : Db
flying = record db { messages = in_flight ∷ []; dlr_webhooks = delivered_report ∷ [] }

-- Another report behind the delivered one.
abbrev next_report : WebhookRow
next_report = record delivered_report { webhook_id = 6 }

process_webhook_delivers_example :
    (db' : Db) × (n : MessageRow) × (process_webhook readers clock 20000 5 3 flying ≡ (ok tt, db'))
    × (find_message in_flight.key db' ≡ some n)
    × (n.status ≡ delivered)
    × (process_webhook readers clock 20000 5 3
          (with_reports (db'.dlr_webhooks ++ next_report ∷ []) db)
        ≡ (ok tt, with_reports (db'.dlr_webhooks ++ next_report ∷ []) db))
unfolding find_message same_ref dlr_input correlate_message is_direct latest_sent later_sent
process_webhook_delivers_example =
    process_webhook_delivers readers clock clock flying db (next_report ∷ []) delivered_report
      in_flight refl refl refl refl refl refl (omega arith)
