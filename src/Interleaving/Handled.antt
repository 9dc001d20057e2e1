-- ===== src/Interleaving/Handled.antt =====
-- Each handler of messages/message-workflow.service.ts, `processWebhook` of
-- dlr/dlr.processor.service.ts and `submitMessageWithContext` of messages/messages.service.ts as a
-- run of the system of workers.
use sms_platform_backend.Base.{
  ℕ, ◌≡◌, refl, subst, inl, inr, Bool, true, false, ◌||◌, Option, none, some, [], ok, err, Result,
  if◌then◌else◌, Option-cases, find_first,
}
use sms_platform_backend.Status.{accepted, routed, submitting, same_status}
use sms_platform_backend.Database.{
  Db, Clock, Tx, with_transaction, MessageRow, MessageEventPayload, WebhookRow,
}
use sms_platform_backend.Messages.{find_message, get_message_row}
use sms_platform_backend.Workflow.Services.{Services, RouteDecision, RetryPolicy, FraudAction}
use sms_platform_backend.Workflow.Accept.{
  accept_routed, accept_message, handle_accepted, retry_message, handle_retry,
}
use sms_platform_backend.Workflow.Dispatch.{dispatch_by, dispatch_message, handle_dispatch}
use sms_platform_backend.Workflow.Results.{
  should_retry, retry_or_fail, settle_message, result_for, handle_dispatch_result,
}
use sms_platform_backend.Dlr.Correlate.{correlate_message}
use sms_platform_backend.Dlr.Processor.{
  TextReaders, dlr_input, report_about, process_found, is_report, process_webhook,
}
use sms_platform_backend.Submission.Services.{
  SubmissionServices, SubmissionContext, SubmitMessageDto,
}
use sms_platform_backend.Submission.Prepare.{Draft, prepare}
use sms_platform_backend.Submission.Accept.{accept_prepared, submit_message_with_context}
use sms_platform_backend.Interleaving.Tasks.{
  reports, route_work, requeue_work, block_work, throttle_work, confirm_work, suspect_work,
  fail_work, retry_work, decides, work_body, task_body, correlate, commit, submit, Runs, idle,
  later,
}
use sms_platform_backend.Interleaving.Handlers.{
  alone, RunsTo, if_RunsTo, one_transaction, submit_begun-RunsTo, ends_alone,
}

module _ {S : Type 0} (services : Services S) (c : Clock) (payload : MessageEventPayload)
    (db : Db) where
  module _ (m : MessageRow) (found : find_message payload.message_ref db ≡ some m) where
    accept_routed-RunsTo :
        (r : Result RouteDecision × S)
        → same_status m.status accepted ≡ true
        → RunsTo db (accept_routed services c payload m r db)
    unfolding accept_routed decides work_body
    accept_routed-RunsTo (err e, s) g = record { run = idle }
    accept_routed-RunsTo (ok route, s) g =
        one_transaction c payload db m found (route_work route) _ s refl g

    accept_message-RunsTo : (s : S) → RunsTo db (accept_message services c payload (ok m) (db, s))
    unfolding accept_message
    accept_message-RunsTo s =
        if_RunsTo db (same_status m.status accepted) _ _ (λ e. accept_routed-RunsTo _ e)
          (λ e. record { run = idle })

    retry_message-RunsTo : (s : S) → RunsTo db (retry_message services c payload (ok m) (db, s))
    unfolding retry_message decides work_body
    retry_message-RunsTo s =
        if_RunsTo db (same_status m.status submitting) _ _
          (λ e. one_transaction c payload db m found requeue_work _ s refl e)
          (λ e. record { run = idle })

    dispatch_by-RunsTo :
        (action : FraudAction) (s : S)
        → (same_status m.status routed || same_status m.status submitting) ≡ true
        → RunsTo db (dispatch_by services c payload m (action, s) db)
    unfolding dispatch_by decides work_body
    dispatch_by-RunsTo FraudAction.block s g =
        one_transaction c payload db m found block_work _ s refl g
    dispatch_by-RunsTo FraudAction.throttle s g =
        one_transaction c payload db m found throttle_work _ s refl g
    dispatch_by-RunsTo action s g = submit_begun-RunsTo c payload db m found services s g

    dispatch_message-RunsTo :
        (s : S) → RunsTo db (dispatch_message services c payload (ok m) (db, s))
    unfolding dispatch_message
    dispatch_message-RunsTo s =
        if_RunsTo db (same_status m.status routed || same_status m.status submitting) _ _
          (λ e. by_action _ e) (λ e. record { run = idle })
      where
        by_action :
            (judged : FraudAction × S)
            → (same_status m.status routed || same_status m.status submitting) ≡ true
            → RunsTo db (dispatch_by services c payload m judged db)
        by_action (action, s') g = dispatch_by-RunsTo action s' g

    retry_or_fail-RunsTo :
        (policy : RetryPolicy) (s : S)
        → same_status m.status submitting ≡ true
        → RunsTo db (retry_or_fail services c payload policy m (db, s))
    unfolding retry_or_fail decides work_body
    retry_or_fail-RunsTo policy s g =
        if_RunsTo db (should_retry policy payload.event_error m) _ _
          (λ e. one_transaction c payload db m found (retry_work policy _) _ _ refl g)
          (λ e. one_transaction c payload db m found fail_work _ s refl g)

    settle_message-RunsTo :
        (s : S)
        → same_status m.status submitting ≡ true
        → RunsTo db (settle_message services c payload m (db, s))
    unfolding settle_message decides work_body
    settle_message-RunsTo s g =
        if_RunsTo db payload.event_accepted _ _
          (λ e. one_transaction c payload db m found confirm_work _ s refl g)
          (λ e.
            if_RunsTo db payload.event_uncertain _ _
              (λ u. one_transaction c payload db m found suspect_work _ s refl g)
              (λ u. retry_or_fail-RunsTo _ s g))

    result_for-RunsTo : (s : S) → RunsTo db (result_for services c payload (ok m) (db, s))
    unfolding result_for
    result_for-RunsTo s =
        if_RunsTo db (same_status m.status submitting) _ _ (λ e. settle_message-RunsTo s e)
          (λ e. record { run = idle })

  -- Whatever `handleAccepted`, `handleDispatch`, `handleDispatchResult` and `handleRetry` do to the
  -- tables when nothing else runs, for any services, payload and tables, the system of workers can
  -- do in steps of one read or one transaction.
  pub handlers-RunsTo :
      (s : S)
      → RunsTo db (handle_accepted services c payload (db, s))
        × RunsTo db (handle_dispatch services c payload (db, s))
        × RunsTo db (handle_dispatch_result services c payload (db, s))
        × RunsTo db (handle_retry services c payload (db, s))
  unfolding handle_accepted handle_dispatch handle_dispatch_result handle_retry get_message_row
      accept_message dispatch_message result_for retry_message
  handlers-RunsTo s = elim (Option-cases (find_message payload.message_ref db)) [
    | inl gone ↦
        rw gone (
          record { run = idle },
          record { run = idle },
          record { run = idle },
          record { run = idle },
        )
    | inr (m, found) ↦ rw found (
      accept_message-RunsTo m found s,
      dispatch_message-RunsTo m found s,
      result_for-RunsTo m found s,
      retry_message-RunsTo m found s,
    )
  ]

process_found-Runs :
    (readers : TextReaders) (c : Clock) (date id provider : ℕ) (db : Db) (o : Option WebhookRow)
    → find_first (is_report date id provider) db.dlr_webhooks ≡ o
    → Runs (alone db) (alone (process_found readers c o db).1)
unfolding process_found task_body
process_found-Runs readers c date id provider db none found = idle
process_found-Runs readers c date id provider db (some w) found = by_mark w.processed refl
  where
    body : Tx (Unit {0})
    body = report_about c w (correlate_message (dlr_input readers w) c.now db.messages)

    by_mark :
        (b : Bool)
        → w.processed ≡ b
        → Runs (alone db) (alone (if b then (Result.ok tt, db) else with_transaction body db).1)
    by_mark true e = idle
    by_mark false e = subst (Runs (alone db)) (ends_alone body c (reports w _) db refl) (
        later (later idle (correlate readers c date id provider w found e))
          (commit [] (reports w _) [] c))

-- webhook
pub process_webhook-Runs :
    (readers : TextReaders) (c : Clock) (date id provider : ℕ) (db : Db)
    → Runs (alone db) (alone (process_webhook readers c date id provider db).1)
unfolding process_webhook
process_webhook-Runs readers c date id provider db =
    process_found-Runs readers c date id provider db
      (find_first (is_report date id provider) db.dlr_webhooks) refl

-- submission
pub submit-Runs :
    {S : Type 0} (services : SubmissionServices S) (c : Clock) (context : SubmissionContext)
    (dto : SubmitMessageDto) (db : Db) (s : S)
    → Runs (alone db) (alone (submit_message_with_context services c context dto (db, s)).1.0)
unfolding submit_message_with_context accept_prepared
submit-Runs {S = S} services c context dto db s = go (prepare services c context dto s)
  where
    go :
        (p : Result Draft × S)
        → Runs (alone db) (alone (accept_prepared services c context dto p db).1.0)
    go (err e, s') = idle
    go (ok draft, s') = later idle (submit c context dto draft)
