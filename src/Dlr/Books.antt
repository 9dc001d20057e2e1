-- ===== src/Dlr/Books.antt =====
-- Delivery reports (dlr/dlr.processor.service.ts) and the balance of the books.
use sms_platform_backend.Base.{
  ℕ, ◌≡◌, refl, sym, subst, ap, ◌∙◌, inl, inr, Bool, true, false, ◌||◌, Option, none, some, List,
  [], arith, Bool-cases, if◌then◌else◌, All, find_first, ok, err, Result,
}
use sms_platform_backend.Status.{
  MessageStatus, submitting, provider_accepted, delivered, failed, same_status, same_status_iff,
}
use sms_platform_backend.Database.{
  Db, Clock, Tx, bind_ok, with_transaction, with_transaction_keeps, MessageRow, WebhookRow,
  BillingState, reserved, DlrStatus, is_delivered, is_failed, is_unknown, ReconcileReason, LogEvent,
  release, release_key, by_dlr, ProcessingNote, log_failed, log_delivered,
}
use sms_platform_backend.Messages.{find_message, Field, transition_message, transitioned, log_event}
use sms_platform_backend.Messages.Updates.{transitioned-SameIdentity, transitioned-status}
use sms_platform_backend.Messages.Transitions.{transition_returns}
use sms_platform_backend.Wallet.{apply_wallet_ledger, release_reserved_wallet}
use sms_platform_backend.Outbox.{enqueue}
use sms_platform_backend.Billing.Books.{is_reserved, is_open, Balanced}
use sms_platform_backend.Billing.Writes.{write-Balanced}
use sms_platform_backend.Billing.Steps.{
  Keeps, Keeps-bind, Keeps-log_event, Keeps-enqueue, settling_transition-Balanced,
}
use sms_platform_backend.Dlr.Correlate.{correlate_message}
use sms_platform_backend.Dlr.Choice.{correlate_message_kept}
use sms_platform_backend.Dlr.Processor.{
  TextReaders, dlr_input, update_webhook, mark_processed, reconcile, finish_report, deliver_message,
  after_failure, dlr_failed_fields, release_if_reserved, release_and_finish, fail_reported,
  report_delivered, report_failed, report_status, report_about, process_found, is_report,
  process_webhook,
}

-- Each row is the one that its identity finds: the primary key of `messages`.
abbrev pub IsKeyed : Db → Type 0
IsKeyed db = All (λ m. find_message m.key db ≡ some m) db.messages

update_webhook-Keeps :
    (date id : ℕ) (f : WebhookRow → WebhookRow) → Keeps (update_webhook date id f)
unfolding update_webhook
update_webhook-Keeps date id f db a db' h e = go (ap written e)
  where
    written : Result (Unit {0} × Db) → Db
    written (ok (a, x)) = x
    written (err x) = db

    go : written (update_webhook date id f db) ≡ db' → Balanced db'
    go q = subst Balanced q h

pub mark_processed-Keeps :
    (w : WebhookRow) (note : Option ProcessingNote) → Keeps (mark_processed w note)
unfolding mark_processed
mark_processed-Keeps w remark = update_webhook-Keeps w.received_date w.webhook_id _

pub reconcile-Keeps :
    (c : Clock) (w : WebhookRow) (reason : ReconcileReason) → Keeps (reconcile c w reason)
unfolding reconcile
reconcile-Keeps c w reason =
    Keeps-bind (enqueue c _) (λ _. update_webhook w.received_date w.webhook_id _)
      (Keeps-enqueue c _) (λ _. update_webhook-Keeps w.received_date w.webhook_id _)

finish_report-Keeps :
    (w : WebhookRow) (m : MessageRow) (event : LogEvent) (next : MessageStatus) (n : MessageRow)
    → Keeps (finish_report w m event next n)
unfolding finish_report
finish_report-Keeps w m event next n =
    Keeps-bind (log_event _) (λ _. update_webhook w.received_date w.webhook_id _)
      (Keeps-log_event _) (λ _. update_webhook-Keeps w.received_date w.webhook_id _)

module _ (c : Clock) (w : WebhookRow) (m : MessageRow) (db : Db)
    (found : find_message m.key db ≡ some m) (balanced : Balanced db) where
  -- A transition between closed statuses that leaves the reservation alone.
  closed_transition-Balanced :
      (next : MessageStatus) (fields : List Field) (n : MessageRow) (db' : Db)
      → is_open m.status ≡ false
      → is_open next ≡ false
      → is_reserved (transitioned c next fields false m).billing_state ≡ is_reserved m.billing_state
      → transition_message c m next fields false db ≡ ok (n, db')
      → Balanced db'
  closed_transition-Balanced next fields n db' was shut same_reserved h =
      let f = transitioned c next fields false in
      let (same_row, same_db, legal, allowed) =
        transition_returns c m.key m db found next fields false n db' h in
      subst Balanced (sym same_db) (
        write-Balanced m.key m db f found (λ y. (transitioned-SameIdentity c next fields false y).0)
          balanced (transitioned-SameIdentity c next fields false m).1 same_reserved
          (ap is_open (transitioned-status c next fields false m) ∙ shut ∙ sym was))

  accepted_is_closed : same_status m.status provider_accepted ≡ true → is_open m.status ≡ false
  accepted_is_closed e = ap is_open ((same_status_iff m.status provider_accepted).0 e)

  pub deliver_message-Balanced :
      (db' : Db)
      → same_status m.status provider_accepted ≡ true
      → deliver_message c w m db ≡ ok (tt, db')
      → Balanced db'
  unfolding deliver_message transitioned
  deliver_message-Balanced db' e h =
      let (n, mid, first, rest) =
        bind_ok (transition_message c m delivered [] false)
          (finish_report w m log_delivered delivered) db tt db' h in
      finish_report-Keeps w m log_delivered delivered n mid tt db'
        (closed_transition-Balanced delivered [] n mid (accepted_is_closed e) refl refl first) rest

  -- A message that holds its price is released with the failure.
  fail_reserved-Balanced :
      (db' : Db) → m.billing_state ≡ reserved → fail_reported c w m db ≡ ok (tt, db') → Balanced db'
  unfolding fail_reported release_and_finish release_if_reserved release_reserved_wallet
      transitioned
  fail_reserved-Balanced db' e h =
      let (n, mid, first, rest) =
        bind_ok (transition_message c m failed (dlr_failed_fields m) false) (release_and_finish w m)
          db tt db' h in
      let (b, last, freed, done) =
        bind_ok (release_if_reserved m) (λ _. finish_report w m log_failed failed n) mid tt db'
          rest in
      let paid : apply_wallet_ledger m.tenant_id m.price_minor release (release_key m.key by_dlr)
            m.key mid
          ≡ ok (b, last) =
        ground (arith, ap is_reserved e) in
      finish_report-Keeps w m log_failed failed n last tt db'
        (settling_transition-Balanced c m.key m db found balanced failed (dlr_failed_fields m) false
          n mid release (release_key m.key by_dlr) b last (ap is_reserved e)
          (ap (λ s. is_reserved (after_failure s)) e) refl refl refl (λ a. refl) first paid)
        done

  fail_settled-Balanced :
      (db' : Db)
      → is_reserved m.billing_state ≡ false
      → fail_reported c w m db ≡ ok (tt, db')
      → Balanced db'
  unfolding fail_reported release_and_finish release_if_reserved transitioned find_message
  fail_settled-Balanced db' e h =
      let (n, mid, first, rest) =
        bind_ok (transition_message c m failed (dlr_failed_fields m) false) (release_and_finish w m)
          db tt db' h in
      let (b, last, freed, done) =
        bind_ok (release_if_reserved m) (λ _. finish_report w m log_failed failed n) mid tt db'
          rest in
      let same_db : mid ≡ last = ground arith in
      let kept : is_reserved (after_failure m.billing_state) ≡ is_reserved m.billing_state =
        ground arith in
      finish_report-Keeps w m log_failed failed n last tt db'
        (subst Balanced same_db (
          closed_transition-Balanced failed (dlr_failed_fields m) n mid
            (sym (balanced.aligned m.key m found) ∙ e) refl kept first))
        done

  pub fail_reported-Balanced : (db' : Db) → fail_reported c w m db ≡ ok (tt, db') → Balanced db'
  fail_reported-Balanced db' h = elim (Bool-cases (is_reserved m.billing_state)) [
    | inl e ↦ fail_reserved-Balanced db' (reserved_state m.billing_state e) h
    | inr e ↦ fail_settled-Balanced db' e h
  ]
    where
      reserved_state : (s : BillingState) → is_reserved s ≡ true → s ≡ reserved
      reserved_state s e = ground arith

  -- One of two bodies.
  if_body :
      (b : Bool) (x y : Tx (Unit {0})) (db' : Db)
      → (b ≡ true → x db ≡ ok (tt, db') → Balanced db')
      → (b ≡ false → y db ≡ ok (tt, db') → Balanced db')
      → (if b then x else y) db ≡ ok (tt, db')
      → Balanced db'
  if_body true x y db' hx hy h = hx refl h
  if_body false x y db' hx hy h = hy refl h

  report_delivered-Balanced : (db' : Db) → report_delivered c w m db ≡ ok (tt, db') → Balanced db'
  unfolding report_delivered
  report_delivered-Balanced db' h =
      if_body (same_status m.status delivered) _ _ db'
        (λ e q. mark_processed-Keeps w _ db tt db' balanced q)
        (λ e q.
          if_body (same_status m.status provider_accepted) _ _ db'
            (λ a r. deliver_message-Balanced db' a r)
            (λ a r. reconcile-Keeps c w _ db tt db' balanced r) q)
        h

  report_failed-Balanced : (db' : Db) → report_failed c w m db ≡ ok (tt, db') → Balanced db'
  unfolding report_failed
  report_failed-Balanced db' h =
      if_body (same_status m.status failed) _ _ db'
        (λ e q. mark_processed-Keeps w _ db tt db' balanced q)
        (λ e q.
          if_body (same_status m.status provider_accepted || same_status m.status submitting) _ _
            db' (λ a r. fail_reported-Balanced db' r)
            (λ a r. reconcile-Keeps c w _ db tt db' balanced r) q)
        h

  report_status-Balanced :
      (status : Option DlrStatus) (db' : Db)
      → report_status c w m status db ≡ ok (tt, db')
      → Balanced db'
  unfolding report_status
  report_status-Balanced (some is_delivered) db' h = report_delivered-Balanced db' h
  report_status-Balanced (some is_failed) db' h = report_failed-Balanced db' h
  report_status-Balanced (some is_unknown) db' h = reconcile-Keeps c w _ db tt db' balanced h
  report_status-Balanced none db' h = reconcile-Keeps c w _ db tt db' balanced h

module _ (readers : TextReaders) (c : Clock) (db : Db) (balanced : Balanced db)
    (keyed : IsKeyed db) where
  report_about-Balanced :
      (w : WebhookRow) (o : Option MessageRow) (db' : Db)
      → ((m : MessageRow) → o ≡ some m → find_message m.key db ≡ some m)
      → report_about c w o db ≡ ok (tt, db')
      → Balanced db'
  unfolding report_about
  report_about-Balanced w none db' there h = reconcile-Keeps c w _ db tt db' balanced h
  report_about-Balanced w (some m) db' there h =
      report_status-Balanced c w m db (there m refl) balanced w.normalized_status db' h

  process_found-Balanced : (o : Option WebhookRow) → Balanced (process_found readers c o db).1
  unfolding process_found
  process_found-Balanced none = balanced
  process_found-Balanced (some w) = by_mark w.processed
    where
      body : Tx (Unit {0})
      body = report_about c w (correlate_message (dlr_input readers w) c.now db.messages)

      by_mark : (b : Bool) → Balanced (if b then (Result.ok tt, db) else with_transaction body db).1
      by_mark true = balanced
      by_mark false = with_transaction_keeps Balanced body db balanced (λ a db' h.
          report_about-Balanced w (correlate_message (dlr_input readers w) c.now db.messages) db'
            (λ m e.
              correlate_message_kept (dlr_input readers w) (λ x. find_message x.key db ≡ some x)
                c.now db.messages m keyed e)
            h)

  -- If the books are balanced and every message is the row that its identity finds, the books are
  -- balanced after `processWebhook`, for any report, whatever it is correlated with and whether the
  -- call returns or throws.
  pub process_webhook-Balanced :
      (date id provider : ℕ) → Balanced (process_webhook readers c date id provider db).1
  unfolding process_webhook
  process_webhook-Balanced date id provider =
      process_found-Balanced (find_first (is_report date id provider) db.dlr_webhooks)
