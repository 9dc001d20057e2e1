-- ===== src/Interleaving/Bodies.antt =====
-- How the table of messages evolves under the transactions of
-- messages/message-workflow.service.ts and dlr/dlr.processor.service.ts, from any tables.
use sms_platform_backend.Base.{ℕ, ℤ, true, false, Option, none, some, List, [], arith}
use sms_platform_backend.Status.{
  MessageStatus, MessageCompositeId, routed, submitting, provider_accepted, delivered, failed,
  same_status,
}
use sms_platform_backend.Database.{
  LedgerKey, debit, release, Clock, MessageRow, MessageEventPayload, WebhookRow, DlrStatus,
  is_delivered, is_failed, is_unknown, ReconcileReason, LogEvent, ProcessingNote, log_delivered,
  log_failed,
}
use sms_platform_backend.Messages.{Field}
use sms_platform_backend.Messages.Growth.{Evolves-same}
use sms_platform_backend.Messages.Evolving.{
  Evolving, Evolving-bind, Evolving-pure, Evolving-if, Evolving-log_event, Evolving-enqueue,
  Evolving-apply_wallet_ledger, Evolving-patch_message, Evolving-transition_message,
}
use sms_platform_backend.Billing.Books.{is_reserved}
use sms_platform_backend.Wallet.{release_reserved_wallet, debit_reserved_wallet}
use sms_platform_backend.Workflow.Accept.{announce_routed, route_message, requeue_dispatch}
use sms_platform_backend.Workflow.Dispatch.{
  start_submitting, release_blocked, fail_blocked, blocked_fields, block_message, delay_throttled,
  throttle_message, log_attempt, begin_submit, report_result,
}
use sms_platform_backend.Workflow.Results.{
  debit_accepted, confirm_message, report_suspect, suspect_message, release_failed, fail_message,
  announce_retry, schedule_retry,
}
use sms_platform_backend.Dlr.Processor.{
  update_webhook, mark_processed, reconcile, finish_report, deliver_message, release_if_reserved,
  release_and_finish, dlr_failed_fields, fail_reported, report_delivered, report_failed,
  report_status, report_about,
}
use sms_platform_backend.Interleaving.Tasks.{
  Work, Task, handles, reports, route_work, requeue_work, block_work, throttle_work, confirm_work,
  suspect_work, fail_work, begin_work, report_work, retry_work, then_done, work_body, task_body,
}

Evolving-release_reserved_wallet :
    (t : ℕ) (amount : ℤ) (k : LedgerKey) (ref : MessageCompositeId)
    → Evolving (release_reserved_wallet t amount k ref)
unfolding release_reserved_wallet
Evolving-release_reserved_wallet t amount k ref =
    Evolving-apply_wallet_ledger t amount release k ref

Evolving-debit_reserved_wallet :
    (t : ℕ) (amount : ℤ) (k : LedgerKey) (ref : MessageCompositeId)
    → Evolving (debit_reserved_wallet t amount k ref)
unfolding debit_reserved_wallet
Evolving-debit_reserved_wallet t amount k ref = Evolving-apply_wallet_ledger t amount debit k ref

module _ (c : Clock) (payload : MessageEventPayload) (m : MessageRow) where
  pub Evolving-start_submitting : (fields : List Field) → Evolving (start_submitting c m fields)
  unfolding start_submitting
  Evolving-start_submitting fields =
      Evolving-if (same_status m.status routed) _ _
        (Evolving-transition_message c m submitting [] true) (Evolving-patch_message c m fields)

  Evolving-release_blocked : (moving n : MessageRow) → Evolving (release_blocked payload m moving n)
  unfolding release_blocked
  Evolving-release_blocked moving n =
      Evolving-bind _ _ (Evolving-release_reserved_wallet _ _ _ _) (λ _. Evolving-log_event _)

  Evolving-fail_blocked : (moving : MessageRow) → Evolving (fail_blocked c payload m moving)
  unfolding fail_blocked
  Evolving-fail_blocked moving =
      Evolving-bind _ _ (Evolving-transition_message c moving failed blocked_fields false)
        (Evolving-release_blocked moving)

  Evolving-block_message : Evolving (block_message c payload m)
  unfolding block_message
  Evolving-block_message = Evolving-bind _ _ (Evolving-start_submitting []) Evolving-fail_blocked

  Evolving-work_body : (work : Work) → Evolving (work_body c payload m work)
  unfolding work_body then_done route_message announce_routed requeue_dispatch throttle_message
      delay_throttled begin_submit log_attempt report_result confirm_message debit_accepted
      suspect_message report_suspect fail_message release_failed schedule_retry announce_retry
  Evolving-work_body (route_work route) =
      Evolving-bind _ _
        (Evolving-bind _ _ (Evolving-transition_message c m routed _ false)
          (λ n. Evolving-bind _ _ (Evolving-log_event _) (λ _. Evolving-enqueue c _)))
        (λ _. Evolving-pure [])
  Evolving-work_body requeue_work = Evolving-bind _ _ (Evolving-enqueue c _) (λ _. Evolving-pure [])
  Evolving-work_body block_work = Evolving-bind _ _ Evolving-block_message (λ _. Evolving-pure [])
  Evolving-work_body throttle_work =
      Evolving-bind _ _
        (Evolving-bind _ _ (Evolving-patch_message c m _)
          (λ n. Evolving-bind _ _ (Evolving-log_event _) (λ _. Evolving-enqueue c _)))
        (λ _. Evolving-pure [])
  Evolving-work_body confirm_work =
      Evolving-bind _ _
        (Evolving-bind _ _ (Evolving-transition_message c m provider_accepted _ false) (λ n.
          Evolving-bind _ _ (Evolving-debit_reserved_wallet _ _ _ _) (λ _. Evolving-log_event _)))
        (λ _. Evolving-pure [])
  Evolving-work_body suspect_work =
      Evolving-bind _ _
        (Evolving-bind _ _ (Evolving-patch_message c m _)
          (λ n. Evolving-bind _ _ (Evolving-log_event _) (λ _. Evolving-enqueue c _)))
        (λ _. Evolving-pure [])
  Evolving-work_body fail_work =
      Evolving-bind _ _
        (Evolving-bind _ _ (Evolving-transition_message c m failed _ false) (λ n.
          Evolving-bind _ _ (Evolving-release_reserved_wallet _ _ _ _) (λ _. Evolving-log_event _)))
        (λ _. Evolving-pure [])
  Evolving-work_body (begin_work protocol result) =
      Evolving-bind _ _
        (Evolving-bind _ _ (Evolving-start_submitting _)
          (λ n. Evolving-bind _ _ (Evolving-log_event _) (λ _. Evolving-pure _)))
        (λ v. Evolving-pure _)
  Evolving-work_body (report_work version protocol result) =
      Evolving-bind _ _ (Evolving-enqueue c _) (λ _. Evolving-pure [])
  Evolving-work_body (retry_work policy next) =
      Evolving-bind _ _
        (Evolving-bind _ _ (Evolving-patch_message c m _)
          (λ n. Evolving-bind _ _ (Evolving-log_event _) (λ _. Evolving-enqueue c _)))
        (λ _. Evolving-pure [])

module _ (c : Clock) (w : WebhookRow) where
  Evolving-update_webhook :
      (date id : ℕ) (f : WebhookRow → WebhookRow) → Evolving (update_webhook date id f)
  unfolding update_webhook Evolving
  Evolving-update_webhook date id f db a db' e = Evolves-same db db' (ground arith)

  Evolving-reconcile : (reason : ReconcileReason) → Evolving (reconcile c w reason)
  unfolding reconcile
  Evolving-reconcile reason =
      Evolving-bind _ _ (Evolving-enqueue c _) (λ _. Evolving-update_webhook _ _ _)

  Evolving-mark_processed : (remark : Option ProcessingNote) → Evolving (mark_processed w remark)
  unfolding mark_processed
  Evolving-mark_processed remark = Evolving-update_webhook _ _ _

  Evolving-finish_report :
      (m : MessageRow) (event : LogEvent) (next : MessageStatus) (n : MessageRow)
      → Evolving (finish_report w m event next n)
  unfolding finish_report
  Evolving-finish_report m event next n =
      Evolving-bind _ _ (Evolving-log_event _) (λ _. Evolving-update_webhook _ _ _)

  Evolving-deliver_message : (m : MessageRow) → Evolving (deliver_message c w m)
  unfolding deliver_message
  Evolving-deliver_message m =
      Evolving-bind _ _ (Evolving-transition_message c m delivered [] false)
        (Evolving-finish_report m log_delivered delivered)

  Evolving-release_if_reserved : (m : MessageRow) → Evolving (release_if_reserved m)
  unfolding release_if_reserved
  Evolving-release_if_reserved m =
      Evolving-if (is_reserved m.billing_state) _ _ (Evolving-release_reserved_wallet _ _ _ _)
        (Evolving-pure false)

  Evolving-fail_reported : (m : MessageRow) → Evolving (fail_reported c w m)
  unfolding fail_reported release_and_finish
  Evolving-fail_reported m =
      Evolving-bind _ (release_and_finish w m)
        (Evolving-transition_message c m failed (dlr_failed_fields m) false)
        (λ n.
          Evolving-bind _ _ (Evolving-release_if_reserved m)
            (λ _. Evolving-finish_report m log_failed failed n))

  Evolving-report_status :
      (m : MessageRow) (status : Option DlrStatus) → Evolving (report_status c w m status)
  unfolding report_status report_delivered report_failed
  Evolving-report_status m (some is_delivered) =
      Evolving-if _ _ _ (Evolving-mark_processed _)
        (Evolving-if _ _ _ (Evolving-deliver_message m) (Evolving-reconcile _))
  Evolving-report_status m (some is_failed) =
      Evolving-if _ _ _ (Evolving-mark_processed _)
        (Evolving-if _ _ _ (Evolving-fail_reported m) (Evolving-reconcile _))
  Evolving-report_status m (some is_unknown) = Evolving-reconcile _
  Evolving-report_status m none = Evolving-reconcile _

  Evolving-report_about : (o : Option MessageRow) → Evolving (report_about c w o)
  unfolding report_about
  Evolving-report_about none = Evolving-reconcile _
  Evolving-report_about (some m) = Evolving-report_status m w.normalized_status

pub Evolving-task_body : (c : Clock) (t : Task) → Evolving (task_body c t)
unfolding task_body then_done
Evolving-task_body c (handles payload m work) = Evolving-work_body c payload m work
Evolving-task_body c (reports w o) =
    Evolving-bind _ _ (Evolving-report_about c w o) (λ _. Evolving-pure [])
