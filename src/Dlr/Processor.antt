-- ===== src/Dlr/Processor.antt =====
-- dlr/dlr.processor.service.ts: `processWebhook` and its helpers.
use sms_platform_backend.Base.{
  ℕ, Bool, true, false, ◌&&◌, ◌||◌, Option, none, some, List, [], ◌∷◌, ◌==◌, if◌then◌else◌, get_or,
  or_else, find_first, update_first, String, str_eq, Result, ok,
}
use sms_platform_backend.Status.{
  MessageStatus, submitting, provider_accepted, delivered, failed, same_status,
}
use sms_platform_backend.Database.{
  Db, Clock, Tx, pure, ◌>>=◌, ◌>>◌, with_transaction, MessageRow, Text, BillingState, reserved,
  released, dlr_failed, WebhookRow, DlrStatus, is_delivered, is_failed, Json, text, number,
  ProcessingNote, duplicate_delivered, duplicate_failed, note_message_not_found,
  note_unknown_status, note_invalid_delivered, note_invalid_failed, ReconcileReason,
  message_not_found, unknown_status, invalid_delivered_transition, invalid_failed_transition,
  dlr_reconcile_key, reconcile_dlr, sms_reconcile, LogEvent, log_delivered, log_failed, release_key,
  by_dlr,
}
use sms_platform_backend.Messages.{
  Field, last_error_code, billing_state, transition_message, log_event,
}
use sms_platform_backend.Wallet.{release_reserved_wallet}
use sms_platform_backend.Outbox.{enqueue}
use sms_platform_backend.Workflow.Accept.{message_log}
use sms_platform_backend.Billing.Books.{is_reserved}
use sms_platform_backend.Dlr.Correlate.{DlrInput, correlate_message}

-- What the runtime does with strings: the digest of a text, a number in a text, a time in a text.
pub record TextReaders : Type 0 where
  pub sha256 : Text → ℕ
  pub to_number : Text → Option ℕ
  pub to_time : Text → ℕ
  pub to_digest : Text → ℕ

-- `payload[key]`
unfoldable pub json_of : String → List (String × Json) → Option Json
json_of k [] = none
json_of k ((name, value) ∷ fields) = if str_eq name k then some value else json_of k fields

-- A string that is not empty.
abbrev pub some_text : Option Json → Option Text
some_text (some (text (u ∷ us))) = some (u ∷ us)
some_text _ = none

-- `extractFirstString`
unfoldable pub extract_first_string : List (String × Json) → List String → Option Text
unfolding json_of
extract_first_string payload [] = none
extract_first_string payload (k ∷ ks) =
    or_else (some_text (json_of k payload)) (extract_first_string payload ks)

abbrev pub some_number : (Text → Option ℕ) → Option Json → Option ℕ
some_number to_number (some (number n)) = some n
some_number to_number (some (text (u ∷ us))) = to_number (u ∷ us)
some_number to_number _ = none

-- `extractFirstNumber`
unfoldable pub extract_first_number :
    (Text → Option ℕ) → List (String × Json) → List String → Option ℕ
unfolding json_of
extract_first_number to_number payload [] = none
extract_first_number to_number payload (k ∷ ks) =
    or_else (some_number to_number (json_of k payload)) (extract_first_number to_number payload ks)

abbrev pub map_text : (Text → ℕ) → Option Text → Option ℕ
map_text f none = none
map_text f (some t) = some (f t)

-- The input of the correlation.
unfoldable pub dlr_input : TextReaders → WebhookRow → DlrInput
unfolding extract_first_string extract_first_number
dlr_input readers webhook =
    let payload = webhook.webhook_payload in
    record {
      dlr_tenant = webhook.webhook_tenant;
      dlr_provider = webhook.webhook_provider;
      dlr_provider_message = webhook.webhook_message;
      dlr_phone =
          extract_first_string payload ("phoneNumber" ∷ "phone_number" ∷ "to" ∷ "destination" ∷ []);
      dlr_sender = extract_first_string payload ("senderId" ∷ "sender_id" ∷ "from" ∷ "source" ∷ []);
      dlr_event_at = map_text readers.to_time (
          extract_first_string payload
            ("eventAt" ∷ "event_at" ∷ "deliveredAt" ∷ "submitDate" ∷ "sentAt" ∷ []));
      dlr_body_hash =
          or_else
            (map_text readers.to_digest
              (extract_first_string payload ("bodyHash" ∷ "body_hash" ∷ [])))
            (map_text readers.sha256
              (extract_first_string payload ("body" ∷ "text" ∷ "message" ∷ "shortMessage" ∷ [])));
      dlr_campaign =
          extract_first_number readers.to_number payload ("campaignId" ∷ "campaign_id" ∷ []);
      dlr_route_rule =
          extract_first_number readers.to_number payload ("routeRuleId" ∷ "route_rule_id" ∷ []);
    }

abbrev pub is_webhook : ℕ → ℕ → WebhookRow → Bool
is_webhook date id w = w.received_date == date && w.webhook_id == id

unfoldable pub update_webhook : ℕ → ℕ → (WebhookRow → WebhookRow) → Tx (Unit {0})
update_webhook date id f db =
    ok (tt, record db { dlr_webhooks = update_first (is_webhook date id) f db.dlr_webhooks })

abbrev pub processed_with : Option ProcessingNote → WebhookRow → WebhookRow
processed_with note w = record w { processed = true; processing_error = note }

-- `processed = TRUE, tenant_id = COALESCE(tenant_id, $3)`
abbrev pub processed_for : ℕ → WebhookRow → WebhookRow
processed_for tenant w = record w {
  processed = true;
  webhook_tenant = or_else w.webhook_tenant (some tenant);
}

-- `markProcessed`
unfoldable pub mark_processed : WebhookRow → Option ProcessingNote → Tx (Unit {0})
mark_processed w note = update_webhook w.received_date w.webhook_id (processed_with note)

abbrev pub note_of : ReconcileReason → ProcessingNote
note_of message_not_found = note_message_not_found
note_of unknown_status = note_unknown_status
note_of invalid_delivered_transition = note_invalid_delivered
note_of invalid_failed_transition = note_invalid_failed

-- The transaction of `enqueueReconciliation`.
unfoldable pub reconcile : Clock → WebhookRow → ReconcileReason → Tx (Unit {0})
reconcile c w reason = do
  enqueue c (record {
    topic = sms_reconcile;
    partition = get_or w.webhook_tenant w.webhook_provider;
    dedupe = dlr_reconcile_key w.received_date w.webhook_id reason;
    content = reconcile_dlr w.received_date w.webhook_id reason;
    not_before = none;
  })
  update_webhook w.received_date w.webhook_id (processed_with (some (note_of reason)))

-- The log of a report and the end of its processing.
unfoldable pub finish_report :
    WebhookRow → MessageRow → LogEvent → MessageStatus → MessageRow → Tx (Unit {0})
finish_report w message event next updated = do
  log_event (
      message_log updated message.key event message.status next updated.provider_id
        updated.provider_message_id)
  update_webhook w.received_date w.webhook_id (processed_for message.tenant_id)

-- The transaction of a 'delivered' report.
unfoldable pub deliver_message : Clock → WebhookRow → MessageRow → Tx (Unit {0})
deliver_message c w message =
    transition_message c message delivered [] false
    >>= finish_report w message log_delivered delivered

abbrev pub after_failure : BillingState → BillingState
after_failure reserved = released
after_failure state = state

abbrev pub dlr_failed_fields : MessageRow → List Field
dlr_failed_fields message =
    last_error_code (some dlr_failed) ∷ billing_state (after_failure message.billing_state) ∷ []

-- The release of a message that still holds its price.
unfoldable pub release_if_reserved : MessageRow → Tx Bool
release_if_reserved message =
    if is_reserved message.billing_state
    then release_reserved_wallet message.tenant_id message.price_minor
        (release_key message.key by_dlr) message.key
    else pure false

unfoldable pub release_and_finish : WebhookRow → MessageRow → MessageRow → Tx (Unit {0})
release_and_finish w message updated =
    release_if_reserved message >>= λ _. finish_report w message log_failed failed updated

-- The transaction of a 'failed' report.
unfoldable pub fail_reported : Clock → WebhookRow → MessageRow → Tx (Unit {0})
fail_reported c w message =
    transition_message c message failed (dlr_failed_fields message) false
    >>= release_and_finish w message

-- What a 'delivered' report does.
unfoldable pub report_delivered : Clock → WebhookRow → MessageRow → Tx (Unit {0})
report_delivered c w message =
    if same_status message.status delivered
    then mark_processed w (some duplicate_delivered)
    else if same_status message.status provider_accepted
    then deliver_message c w message
    else reconcile c w invalid_delivered_transition

-- What a 'failed' report does.
unfoldable pub report_failed : Clock → WebhookRow → MessageRow → Tx (Unit {0})
report_failed c w message =
    if same_status message.status failed
    then mark_processed w (some duplicate_failed)
    else if same_status message.status provider_accepted || same_status message.status submitting
    then fail_reported c w message
    else reconcile c w invalid_failed_transition

unfoldable pub report_status : Clock → WebhookRow → MessageRow → Option DlrStatus → Tx (Unit {0})
report_status c w message (some is_delivered) = report_delivered c w message
report_status c w message (some is_failed) = report_failed c w message
report_status c w message _ = reconcile c w unknown_status

unfoldable pub report_about : Clock → WebhookRow → Option MessageRow → Tx (Unit {0})
report_about c w none = reconcile c w message_not_found
report_about c w (some message) = report_status c w message w.normalized_status

-- The body of `processWebhook` for a report that is not processed yet: each branch is one
-- transaction, or one statement.
unfoldable pub process_found : TextReaders → Clock → Option WebhookRow → Db → Result (Unit {0}) × Db
process_found readers c none db = (ok tt, db)
process_found readers c (some w) db =
    if w.processed
    then (ok tt, db)
    else with_transaction
        (report_about c w (correlate_message (dlr_input readers w) c.now db.messages)) db

-- `WHERE received_date = $1 AND id = $2 AND provider_id = $3`
abbrev pub is_report : ℕ → ℕ → ℕ → WebhookRow → Bool
is_report date id provider w = is_webhook date id w && w.webhook_provider == provider

-- `processWebhook`
unfoldable pub process_webhook : TextReaders → Clock → ℕ → ℕ → ℕ → Db → Result (Unit {0}) × Db
process_webhook readers c date id provider db =
    process_found readers c (find_first (is_report date id provider) db.dlr_webhooks) db
