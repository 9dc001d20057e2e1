-- ===== src/Interleaving/Reports.antt =====
-- The transactions of dlr/dlr.processor.service.ts and the balance of the books, for a message as
-- it was read when the report was correlated.
use sms_platform_backend.Base.{
  ◌≡◌, refl, Bool, true, false, ◌||◌, Option, none, some, [], if◌then◌else◌, ok,
}
use sms_platform_backend.Status.{submitting, provider_accepted, delivered, failed, same_status}
use sms_platform_backend.Database.{
  Db, Clock, Tx, MessageRow, WebhookRow, DlrStatus, is_delivered, is_failed, is_unknown,
  log_delivered,
}
use sms_platform_backend.Messages.Distinct.{Distinct}
use sms_platform_backend.Billing.Books.{Balanced}
use sms_platform_backend.Dlr.Processor.{
  finish_report, deliver_message, dlr_failed_fields, release_and_finish, fail_reported,
  report_delivered, report_failed, report_status, report_about,
}
use sms_platform_backend.Dlr.Books.{
  mark_processed-Keeps, reconcile-Keeps, deliver_message-Balanced, fail_reported-Balanced,
}
use sms_platform_backend.Interleaving.Fresh.{
  IsSnapshot, NeedsFresh-bind, NeedsFresh-transition_message,
}

-- What one branch keeps, the whole keeps.
if_Balanced :
    (b : Bool) (x y : Tx (Unit {0})) (db db' : Db)
    → (b ≡ true → x db ≡ ok (tt, db') → Balanced db')
    → (b ≡ false → y db ≡ ok (tt, db') → Balanced db')
    → (if b then x else y) db ≡ ok (tt, db')
    → Balanced db'
if_Balanced true x y db db' hx hy h = hx refl h
if_Balanced false x y db db' hx hy h = hy refl h

module _ (c : Clock) (w : WebhookRow) (db : Db) (balanced : Balanced db)
    (distinct : Distinct db.messages) where
  module _ (m : MessageRow) (snapshot : IsSnapshot m db) where
    stale_deliver :
        (db' : Db)
        → same_status m.status provider_accepted ≡ true
        → deliver_message c w m db ≡ ok (tt, db')
        → Balanced db'
    unfolding deliver_message
    stale_deliver db' g h =
        deliver_message-Balanced c w m db
          (NeedsFresh-bind m _ (finish_report w m log_delivered delivered)
            (NeedsFresh-transition_message c m delivered [] false) db tt db' distinct snapshot h)
          balanced db' g h

    stale_fail : (db' : Db) → fail_reported c w m db ≡ ok (tt, db') → Balanced db'
    unfolding fail_reported
    stale_fail db' h =
        fail_reported-Balanced c w m db
          (NeedsFresh-bind m _ (release_and_finish w m)
            (NeedsFresh-transition_message c m failed (dlr_failed_fields m) false) db tt db'
            distinct snapshot h)
          balanced db' h

    stale_status :
        (status : Option DlrStatus) (db' : Db)
        → report_status c w m status db ≡ ok (tt, db')
        → Balanced db'
    unfolding report_status report_delivered report_failed
    stale_status (some is_delivered) db' h =
        if_Balanced (same_status m.status delivered) _ _ db db'
          (λ e q. mark_processed-Keeps w _ db tt db' balanced q)
          (λ e q.
            if_Balanced (same_status m.status provider_accepted) _ _ db db' (stale_deliver db')
              (λ a r. reconcile-Keeps c w _ db tt db' balanced r) q)
          h
    stale_status (some is_failed) db' h =
        if_Balanced (same_status m.status failed) _ _ db db'
          (λ e q. mark_processed-Keeps w _ db tt db' balanced q)
          (λ e q.
            if_Balanced (same_status m.status provider_accepted || same_status m.status submitting)
              _ _ db db' (λ a r. stale_fail db' r)
              (λ a r. reconcile-Keeps c w _ db tt db' balanced r) q)
          h
    stale_status (some is_unknown) db' h = reconcile-Keeps c w _ db tt db' balanced h
    stale_status none db' h = reconcile-Keeps c w _ db tt db' balanced h

  pub report_about-stale :
      (o : Option MessageRow) (db' : Db)
      → ((m : MessageRow) → o ≡ some m → IsSnapshot m db)
      → report_about c w o db ≡ ok (tt, db')
      → Balanced db'
  unfolding report_about
  report_about-stale none db' there h = reconcile-Keeps c w _ db tt db' balanced h
  report_about-stale (some m) db' there h = stale_status m (there m refl) w.normalized_status db' h
