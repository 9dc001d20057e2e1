-- ===== src/Interleaving/Kept.antt =====
-- The transactions of the handlers (messages/message-workflow.service.ts and
-- dlr/dlr.processor.service.ts) and the balance of the books, each for a message as it was read
-- some time before.
use sms_platform_backend.Base.{◌≡◌, subst, ap, Bool, true, false, some, List, [], ◌∷◌, arith, ok}
use sms_platform_backend.Status.{
  routed, submitting, provider_accepted, failed, same_status, same_status_iff,
}
use sms_platform_backend.Database.{Db, Clock, Tx, pure, bind_ok, MessageRow, MessageEventPayload}
use sms_platform_backend.Messages.{find_message}
use sms_platform_backend.Messages.Distinct.{Distinct}
use sms_platform_backend.Billing.Books.{is_open, Balanced}
use sms_platform_backend.Workflow.Accept.{announce_routed, route_message}
use sms_platform_backend.Workflow.Dispatch.{
  fail_blocked, block_message, delay_throttled, throttle_message, log_attempt, begin_submit,
}
use sms_platform_backend.Workflow.Results.{
  debit_accepted, confirm_message, report_suspect, suspect_message, release_failed, fail_message,
  announce_retry, schedule_retry,
}
use sms_platform_backend.Workflow.Bodies.{
  route_message-Balanced, requeue_dispatch-Keeps, report_result-Keeps, confirm_message-Balanced,
  fail_message-Balanced, begin_submit-Balanced, throttle_message-Balanced, suspect_message-Balanced,
  schedule_retry-Balanced,
}
use sms_platform_backend.Workflow.FraudOutcomes.{block_message_throws}
use sms_platform_backend.Interleaving.Tasks.{
  Work, Task, handles, route_work, requeue_work, block_work, throttle_work, confirm_work,
  suspect_work, fail_work, begin_work, report_work, retry_work, decides, then_done, work_body,
}
use sms_platform_backend.Interleaving.Fresh.{
  IsSnapshot, NeedsFresh, NeedsFresh-bind, NeedsFresh-patch_message, NeedsFresh-transition_message,
  NeedsFresh-start_submitting,
}

pub then_done-case :
    (body : Tx (Unit {0})) (db : Db) (ts : List Task) (db' : Db)
    → then_done body db ≡ ok (ts, db')
    → (body db ≡ ok (tt, db')) × (ts ≡ [])
unfolding then_done
then_done-case body db ts db' h =
    let (u, mid, first, rest) = bind_ok body (λ _. pure []) db ts db' h in
    let same_db : mid ≡ db' = ground arith in
    (subst (λ x. body db ≡ ok (tt, x)) same_db first, ground arith)

-- Nothing needs a guard after the report of a dispatch.
abbrev pub is_guarded : MessageRow → Work → Bool
is_guarded m (report_work version protocol result) = true
is_guarded m work = decides m work

submitting-is_open :
    (m : MessageRow) → same_status m.status submitting ≡ true → is_open m.status ≡ true
submitting-is_open m e = ap is_open ((same_status_iff m.status submitting).0 e)

module _ (c : Clock) (payload : MessageEventPayload) (m : MessageRow) (db : Db)
    (balanced : Balanced db) (distinct : Distinct db.messages) (snapshot : IsSnapshot m db)
    (about : m.key ≡ payload.message_ref) where
  -- If a body that needs the row fresh returns, the event's message is the row that was read.
  fresh :
      {A : Type 0} (body : Tx A) (a : A) (db' : Db)
      → NeedsFresh m body
      → body db ≡ ok (a, db')
      → find_message payload.message_ref db ≡ some m
  fresh body a db' needs h =
      subst (λ ref. find_message ref db ≡ some m) about (needs db a db' distinct snapshot h)

  pub work_body-Balanced :
      (work : Work) (ts : List Task) (db' : Db)
      → is_guarded m work ≡ true
      → work_body c payload m work db ≡ ok (ts, db')
      → Balanced db'
  unfolding work_body decides route_message block_message throttle_message begin_submit
      confirm_message suspect_message fail_message schedule_retry
  work_body-Balanced (route_work route) ts db' g h =
      let (e, _) = then_done-case (route_message c payload m route) db ts db' h in
      route_message-Balanced c payload m db
        (fresh (route_message c payload m route) tt db'
          (NeedsFresh-bind m _ (announce_routed c payload m route)
            (NeedsFresh-transition_message c m routed _ false))
          e)
        balanced route db' e
  work_body-Balanced requeue_work ts db' g h =
      let (e, _) = then_done-case _ db ts db' h in
      requeue_dispatch-Keeps c payload m db tt db' balanced e
  work_body-Balanced block_work ts db' g h =
      let (e, _) = then_done-case (block_message c payload m) db ts db' h in
      absurd (
        block_message_throws c payload m db
          (fresh (block_message c payload m) tt db'
            (NeedsFresh-bind m _ (fail_blocked c payload m) (NeedsFresh-start_submitting c m [])) e)
          db' e)
  work_body-Balanced throttle_work ts db' g h =
      let (e, _) = then_done-case (throttle_message c payload m) db ts db' h in
      throttle_message-Balanced c payload m db
        (fresh (throttle_message c payload m) tt db'
          (NeedsFresh-bind m _ (delay_throttled c payload m) (NeedsFresh-patch_message c m _)) e)
        balanced db' e
  work_body-Balanced confirm_work ts db' g h =
      let (e, _) = then_done-case (confirm_message c payload m) db ts db' h in
      confirm_message-Balanced c payload m db
        (fresh (confirm_message c payload m) tt db'
          (NeedsFresh-bind m _ (debit_accepted payload m)
            (NeedsFresh-transition_message c m provider_accepted _ false))
          e)
        balanced db' (submitting-is_open m g) e
  work_body-Balanced suspect_work ts db' g h =
      let (e, _) = then_done-case (suspect_message c payload m) db ts db' h in
      suspect_message-Balanced c payload m db
        (fresh (suspect_message c payload m) tt db'
          (NeedsFresh-bind m _ (report_suspect c payload m) (NeedsFresh-patch_message c m _)) e)
        balanced db' e
  work_body-Balanced fail_work ts db' g h =
      let (e, _) = then_done-case (fail_message c payload m) db ts db' h in
      fail_message-Balanced c payload m db
        (fresh (fail_message c payload m) tt db'
          (NeedsFresh-bind m _ (release_failed payload m)
            (NeedsFresh-transition_message c m failed _ false))
          e)
        balanced db' (submitting-is_open m g) e
  work_body-Balanced (begin_work protocol result) ts db' g h =
      let (v, mid, e, rest) =
        bind_ok (begin_submit c payload m)
          (λ v. pure (handles payload m (report_work v protocol result) ∷ [])) db ts db' h in
      let same_db : mid ≡ db' = ground arith in
      subst Balanced same_db (
        begin_submit-Balanced c payload m db
          (fresh (begin_submit c payload m) v mid
            (NeedsFresh-bind m _ (log_attempt payload m) (NeedsFresh-start_submitting c m _)) e)
          balanced v mid e)
  work_body-Balanced (report_work version protocol result) ts db' g h =
      let (e, _) = then_done-case _ db ts db' h in
      report_result-Keeps c payload m version protocol result db tt db' balanced e
  work_body-Balanced (retry_work policy next) ts db' g h =
      let (e, _) = then_done-case (schedule_retry c payload m policy next) db ts db' h in
      schedule_retry-Balanced c payload m db
        (fresh (schedule_retry c payload m policy next) tt db'
          (NeedsFresh-bind m _ (announce_retry c payload m policy next)
            (NeedsFresh-patch_message c m _))
          e)
        balanced policy next db' e
