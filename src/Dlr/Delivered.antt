-- ===== src/Dlr/Delivered.antt =====
-- `processWebhook` of dlr/dlr.processor.service.ts for a report that a message was delivered.
use sms_platform_backend.Base.{
  ◌<◌, ◌≡◌, refl, ap, ◌∙◌, Bool, true, false, some, List, [], ◌∷◌, ◌++◌, if◌then◌else◌, find_first,
  find_first-narrow, find_first-update_first_both, update_first, ok, arith,
}
use sms_platform_backend.Status.{provider_accepted, delivered, same_status, allows}
use sms_platform_backend.Database.{
  Db, Clock, with_transaction, with_transaction_ok, bind_step, MessageRow, WebhookRow, is_delivered,
  log_delivered,
}
use sms_platform_backend.Messages.{
  find_message, transitioned, enter_status, patched, legal_update, legal_status_change,
  transition_message, audit_transition, log_event,
}
use sms_platform_backend.Messages.Updates.{
  find_message-write_self, update_fresh, transitioned-SameIdentity, transitioned-status,
}
use sms_platform_backend.Messages.Transitions.{transition_written}
use sms_platform_backend.Workflow.Accept.{message_log}
use sms_platform_backend.Dlr.Correlate.{correlate_message}
use sms_platform_backend.Dlr.Processor.{
  TextReaders, dlr_input, is_webhook, update_webhook, processed_for, finish_report, deliver_message,
  report_delivered, report_status, report_about, process_found, is_report, process_webhook,
}

module _ (c : Clock) (m : MessageRow) (db : Db) (found : find_message m.key db ≡ some m)
    (in_flight : m.status ≡ provider_accepted) (later : m.state_changed_at < c.now) where
  -- The row of the delivered message.
  abbrev pub delivered_row : MessageRow
  delivered_row = transitioned c delivered [] false m

  legal_delivery : legal_update m delivered_row ≡ true
  unfolding legal_update legal_status_change transitioned patched enter_status same_status
  legal_delivery = ground arith

  transition_done :
      transition_message c m delivered [] false db
      ≡ ok (
        delivered_row,
        transition_written m.key m delivered_row (transitioned c delivered [] false) db,
      )
  unfolding transition_message audit_transition allows
  transition_done =
      let e = update_fresh m.key m db found (transitioned c delivered [] false) in
      let s = transitioned-status c delivered [] false m in ground (arith, legal_delivery)

  -- The tables after the report's transaction.
  abbrev pub settled : WebhookRow → Db
  settled w =
      record (transition_written m.key m delivered_row (transitioned c delivered [] false) db) {
        message_logs =
            db.message_logs
            ++ message_log delivered_row m.key log_delivered m.status delivered
                delivered_row.provider_id delivered_row.provider_message_id
              ∷ [];
        dlr_webhooks =
            update_first (is_webhook w.received_date w.webhook_id) (processed_for m.tenant_id)
              db.dlr_webhooks;
      }

  deliver_done : (w : WebhookRow) → deliver_message c w m db ≡ ok (tt, settled w)
  unfolding deliver_message finish_report log_event update_webhook
  deliver_done w =
      bind_step (transition_message c m delivered [] false)
        (finish_report w m log_delivered delivered) db delivered_row
        (transition_written m.key m delivered_row (transitioned c delivered [] false) db)
        transition_done

  report_done :
      (w : WebhookRow)
      → w.normalized_status ≡ some is_delivered
      → report_about c w (some m) db ≡ ok (tt, settled w)
  unfolding report_about report_status report_delivered same_status
  report_done w status =
      ap (λ s. report_status c w m s db) status
      ∙ (let straight : report_delivered c w m db ≡ deliver_message c w m db = ground arith in
          straight)
      ∙ deliver_done w

-- The report that its key finds is the one that its key and its provider find.
found_report :
    (ws : List WebhookRow) (w : WebhookRow)
    → find_first (is_webhook w.received_date w.webhook_id) ws ≡ some w
    → find_first (is_report w.received_date w.webhook_id w.webhook_provider) ws ≡ some w
found_report ws w there =
    find_first-narrow (is_webhook w.received_date w.webhook_id)
      (is_report w.received_date w.webhook_id w.webhook_provider) ws w (λ y h. ground arith) there
      (ground arith)

find_first-more {ℓ} :
    {A : Type ℓ} (p : A → Bool) (xs ys : List A) (x : A)
    → find_first p xs ≡ some x
    → find_first p (xs ++ ys) ≡ some x
find_first-more p [] ys x h = cc
find_first-more p (y ∷ xs) ys x h = ground (arith, find_first-more p xs ys x)

-- Any tables, with the reports of others.
abbrev pub with_reports : List WebhookRow → Db → Db
with_reports ws other = record other { dlr_webhooks = ws }

-- If a report that is not processed says 'delivered', its key finds it, and it is correlated with a
-- message of the table in 'provider_accepted' that changed before the time of the transaction, then
-- `processWebhook` returns, the message is delivered, and `processWebhook` of the same report, at
-- any time and on any database whose reports are those that this call left, with any reports behind
-- them, returns and changes nothing.
pub process_webhook_delivers :
    (readers : TextReaders) (c c' : Clock) (db other : Db) (more : List WebhookRow) (w : WebhookRow)
    (m : MessageRow)
    → find_first (is_webhook w.received_date w.webhook_id) db.dlr_webhooks ≡ some w
    → w.processed ≡ false
    → w.normalized_status ≡ some is_delivered
    → correlate_message (dlr_input readers w) c.now db.messages ≡ some m
    → find_message m.key db ≡ some m
    → m.status ≡ provider_accepted
    → m.state_changed_at < c.now
    → (db' : Db) × (n : MessageRow) × (process_webhook readers c w.received_date w.webhook_id
          w.webhook_provider db
        ≡ (ok tt, db'))
      × (find_message m.key db' ≡ some n)
      × (n.status ≡ delivered)
      × (process_webhook readers c' w.received_date w.webhook_id w.webhook_provider
            (with_reports (db'.dlr_webhooks ++ more) other)
          ≡ (ok tt, with_reports (db'.dlr_webhooks ++ more) other))
unfolding process_webhook process_found find_message
process_webhook_delivers readers c c' db other more w m there fresh status matched found in_flight
      later =
    let db' = settled c m db found in_flight later w in
    let body = report_about c w (correlate_message (dlr_input readers w) c.now db.messages) in
    let report = is_report w.received_date w.webhook_id w.webhook_provider in
    let again =
      find_first-update_first_both report (is_webhook w.received_date w.webhook_id)
        (processed_for m.tenant_id) db.dlr_webhooks w (λ y. refl)
        (found_report db.dlr_webhooks w there) there in
    (
      db',
      delivered_row c m db found in_flight later,
      ap (λ o. process_found readers c o db) (found_report db.dlr_webhooks w there)
          ∙ ap (λ b. if b then (ok tt, db) else with_transaction body db) fresh
          ∙ with_transaction_ok body db tt db' (
              ap (λ o. report_about c w o db) matched
              ∙ report_done c m db found in_flight later w status),
      find_message-write_self m.key m db found (transitioned c delivered [] false)
          (λ y. (transitioned-SameIdentity c delivered [] false y).0),
      transitioned-status c delivered [] false m,
      ap (λ o. process_found readers c' o (with_reports (db'.dlr_webhooks ++ more) other))
          (find_first-more report db'.dlr_webhooks more (processed_for m.tenant_id w) again),
    )
