-- ===== src/Dlr/Accept.antt =====
-- dlr/dlr.service.ts: `acceptWebhook`, which stores a report and its event.
-- The column `headers`, which nothing reads, is left out.
use sms_platform_backend.Base.{
  ℕ, ◌+◌, Bool, false, ◌&&◌, Option, none, some, List, [], ◌∷◌, ◌++◌, ◌==◌, if◌then◌else◌, or_else,
  find_first, update_first, any_row, String, Result, err, provider_not_found,
}
use sms_platform_backend.Database.{
  Db, Clock, Tx, with_transaction, Text, same_text, WebhookRow, DlrStatus, is_delivered, is_failed,
  is_unknown, Json, text, dlr_key, dlr_received, sms_dlr,
}
use sms_platform_backend.Outbox.{OutboxEventInput, enqueue}
use sms_platform_backend.Strings.{codes}
use sms_platform_backend.Dlr.Processor.{extract_first_string, json_of, map_text}

-- A report as it comes in, with the header x-request-id where that is a string.
pub record Report : Type 0 where
  pub report_payload : List (String × Json)
  pub request_id : Option Text

-- What the runtime does with strings: toLowerCase, and a number for each string that is only
-- compared.
pub record TextWriters : Type 0 where
  pub to_lower : Text → Text
  pub as_id : Text → ℕ

abbrev pub delivered_words : List Text
delivered_words =
    codes "delivered" ∷ codes "deliverd" ∷ codes "success" ∷ codes "successdelivrd" ∷ []

abbrev pub failed_words : List Text
failed_words =
    codes "failed" ∷ codes "undelivered" ∷ codes "rejected" ∷ codes "expired" ∷ codes "deleted" ∷ []

-- `words.includes(value)`
abbrev pub is_word : List Text → Text → Bool
is_word words value = any_row (same_text value) words

abbrev pub lowered_text : (Text → Text) → Option Json → List Text → List Text
lowered_text to_lower (some (text value)) rest = to_lower value ∷ rest
lowered_text to_lower _ rest = rest

-- The strings under the keys, in lower case.
unfoldable pub status_candidates : (Text → Text) → List (String × Json) → List String → List Text
unfolding json_of
status_candidates to_lower payload [] = []
status_candidates to_lower payload (k ∷ ks) =
    lowered_text to_lower (json_of k payload) (status_candidates to_lower payload ks)

abbrev pub status_of : List Text → DlrStatus
status_of candidates =
    if any_row (is_word delivered_words) candidates
    then is_delivered
    else if any_row (is_word failed_words) candidates
    then is_failed
    else is_unknown

-- `normalizeStatus`
unfoldable pub normalize_status : (Text → Text) → List (String × Json) → DlrStatus
unfolding status_candidates
normalize_status to_lower payload = status_of (
    status_candidates to_lower payload
      ("status" ∷ "deliveryStatus" ∷ "delivery_status" ∷ "message_status" ∷ "state" ∷ []))

abbrev pub same_callback : ℕ → Option ℕ → Bool
same_callback k none = false
same_callback k (some l) = l == k

-- The unique index on the day, the provider and the callback; NULL is not in it.
abbrev pub is_callback : ℕ → ℕ → Option ℕ → WebhookRow → Bool
is_callback today provider none w = false
is_callback today provider (some k) w =
    w.received_date == today
    && (w.webhook_provider == provider && same_callback k w.webhook_callback)

abbrev pub id_of : Option (Text × ℕ) → Option ℕ
id_of none = none
id_of (some p) = some p.1

unfoldable pub received_event : ℕ → WebhookRow → OutboxEventInput
received_event provider w = record {
  topic = sms_dlr;
  partition = provider;
  dedupe = dlr_key w.received_date w.webhook_id;
  content = dlr_received w.received_date w.webhook_id provider;
  not_before = none;
}

unfoldable pub announce : Clock → ℕ → WebhookRow × Db → Result (Unit {0} × Db)
unfolding received_event
announce c provider (w, db) = enqueue c (received_event provider w) db

module _ (writers : TextWriters) where
  unfoldable pub message_id_of : Report → Option ℕ
  unfolding extract_first_string
  message_id_of report = map_text writers.as_id (
      extract_first_string report.report_payload
        ("providerMessageId" ∷ "provider_message_id" ∷ "messageId" ∷ "message_id" ∷ []))

  unfoldable pub callback_of : Report → Option ℕ
  unfolding extract_first_string
  callback_of report = map_text writers.as_id (
      or_else
        (extract_first_string report.report_payload
          ("callbackId" ∷ "callback_id" ∷ "eventId" ∷ "event_id" ∷ []))
        report.request_id)

  unfoldable pub tenant_of : Report → Option ℕ
  unfolding extract_first_string
  tenant_of report =
      map_text writers.as_id
        (extract_first_string report.report_payload ("tenantId" ∷ "tenant_id" ∷ []))

  -- DO UPDATE SET
  unfoldable pub renewed : Report → WebhookRow → WebhookRow
  unfolding message_id_of tenant_of normalize_status
  renewed report w = record w {
    webhook_tenant = or_else w.webhook_tenant (tenant_of report);
    webhook_message = or_else (message_id_of report) w.webhook_message;
    webhook_payload = report.report_payload;
    normalized_status = some (normalize_status writers.to_lower report.report_payload);
  }

  unfoldable pub new_webhook : Clock → ℕ → Report → ℕ → WebhookRow
  unfolding message_id_of tenant_of callback_of normalize_status
  new_webhook c provider report id = record {
    received_date = c.today;
    webhook_id = id;
    webhook_provider = provider;
    webhook_tenant = tenant_of report;
    webhook_message = message_id_of report;
    webhook_callback = callback_of report;
    webhook_payload = report.report_payload;
    normalized_status = some (normalize_status writers.to_lower report.report_payload);
    processed = false;
    processing_error = none;
  }

  -- The INSERT with its conflict: the row that it returns, and the tables.
  unfoldable pub upserted : Clock → ℕ → Report → Option ℕ → Option WebhookRow → Db → WebhookRow × Db
  unfolding renewed new_webhook
  upserted c provider report callback (some w) db = (
    renewed report w,
    record db {
      dlr_webhooks =
          update_first (is_callback c.today provider callback) (renewed report) db.dlr_webhooks;
    },
  )
  upserted c provider report callback none db =
      let w = new_webhook c provider report db.next_webhook_id in
      (
        w,
        record db {
          dlr_webhooks = db.dlr_webhooks ++ w ∷ [];
          next_webhook_id = db.next_webhook_id + 1;
        },
      )

  unfoldable pub store_under : Clock → ℕ → Report → Option ℕ → Tx (Unit {0})
  unfolding upserted announce
  store_under c provider report callback db = announce c provider (
      upserted c provider report callback
        (find_first (is_callback c.today provider callback) db.dlr_webhooks) db)

  -- The transaction of `acceptWebhook`.
  unfoldable pub store_report : Clock → ℕ → Report → Tx (Unit {0})
  unfolding store_under callback_of
  store_report c provider report = store_under c provider report (callback_of report)

  unfoldable pub accept_from : Clock → Option ℕ → Report → Db → Result (Unit {0}) × Db
  unfolding store_report
  accept_from c none report db = (err provider_not_found, db)
  accept_from c (some provider) report db = with_transaction (store_report c provider report) db

  -- `acceptWebhook`; the providers are their codes with their identities.
  unfoldable pub accept_webhook :
      Clock → List (Text × ℕ) → Text → Report → Db → Result (Unit {0}) × Db
  unfolding accept_from
  accept_webhook c providers provider_code report db =
      accept_from c (id_of (find_first (λ p. same_text p.0 provider_code) providers)) report db
