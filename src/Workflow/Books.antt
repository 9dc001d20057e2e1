-- ===== src/Workflow/Books.antt =====
-- The handlers of messages/message-workflow.service.ts and the balance of the books.
use sms_platform_backend.Base.{
  ℕ, ◌≡◌, refl, ap, inl, inr, Bool, true, false, ◌||◌, some, Option-cases, if◌then◌else◌, Result,
  ok, err,
}
use sms_platform_backend.Status.{accepted, routed, submitting, same_status, same_status_iff}
use sms_platform_backend.Database.{
  Db, Clock, Tx, with_transaction, with_transaction_keeps, MessageRow, Protocol,
  MessageEventPayload,
}
use sms_platform_backend.Messages.{find_message, get_message_row}
use sms_platform_backend.Billing.Books.{is_open, Balanced}
use sms_platform_backend.Workflow.Services.{
  Services, RouteDecision, RetryPolicy, FraudAction, DispatchResult,
}
use sms_platform_backend.Workflow.Accept.{
  World, route_message, requeue_dispatch, accept_routed, accept_message, handle_accepted,
  retry_message, handle_retry, in_transaction,
}
use sms_platform_backend.Workflow.Dispatch.{
  block_message, throttle_message, begin_submit, after_dispatch, submit_begun, dispatch_by,
  dispatch_message, handle_dispatch,
}
use sms_platform_backend.Workflow.Results.{
  should_retry, confirm_message, suspect_message, fail_message, retry_or_fail, settle_message,
  result_for, handle_dispatch_result,
}
use sms_platform_backend.Workflow.Bodies.{
  route_message-Balanced, requeue_dispatch-Keeps, report_result-Keeps, confirm_message-Balanced,
  fail_message-Balanced, begin_submit-Balanced, throttle_message-Balanced, suspect_message-Balanced,
  schedule_retry-Balanced,
}
use sms_platform_backend.Workflow.FraudOutcomes.{block_message_throws}

-- The books after a handler.
pub record BalancedAfter {S : Type 0} (outcome : Result (Unit {0}) × World S) : Type 0 where
  pub books : Balanced outcome.1.0

in_transaction-Balanced :
    {S : Type 0} (body : Tx (Unit {0})) (db : Db) (s : S)
    → Balanced db
    → ((db' : Db) → body db ≡ ok (tt, db') → Balanced db')
    → BalancedAfter (in_transaction body (db, s))
in_transaction-Balanced body db s h step = record {
  books = with_transaction_keeps Balanced body db h (λ a db' e. step db' e);
}

if-Balanced :
    {S : Type 0} (b : Bool) (x y : Result (Unit {0}) × World S)
    → (b ≡ true → BalancedAfter x)
    → (b ≡ false → BalancedAfter y)
    → BalancedAfter (if b then x else y)
if-Balanced true x y hx hy = hx refl
if-Balanced false x y hx hy = hy refl

module _ {S : Type 0} (services : Services S) (c : Clock) (payload : MessageEventPayload) (db : Db)
    (balanced : Balanced db) where
  module _ (m : MessageRow) (found : find_message payload.message_ref db ≡ some m) where
    accept_routed-Balanced :
        (r : Result RouteDecision × S) → BalancedAfter (accept_routed services c payload m r db)
    unfolding accept_routed
    accept_routed-Balanced (err e, s) = record { books = balanced }
    accept_routed-Balanced (ok route, s) =
        in_transaction-Balanced (route_message c payload m route) db s balanced
          (route_message-Balanced c payload m db found balanced route)

    accept_message-Balanced :
        (s : S) → BalancedAfter (accept_message services c payload (ok m) (db, s))
    unfolding accept_message
    accept_message-Balanced s =
        if-Balanced (same_status m.status accepted) _ _ (λ e. accept_routed-Balanced _)
          (λ e. record { books = balanced })

    retry_message-Balanced :
        (s : S) → BalancedAfter (retry_message services c payload (ok m) (db, s))
    unfolding retry_message
    retry_message-Balanced s =
        if-Balanced (same_status m.status submitting) _ _
          (λ e.
            in_transaction-Balanced (requeue_dispatch c payload m) db s balanced
              (λ db' h. requeue_dispatch-Keeps c payload m db tt db' balanced h))
          (λ e. record { books = balanced })

    submitting-is_open : same_status m.status submitting ≡ true → is_open m.status ≡ true
    submitting-is_open e = ap is_open ((same_status_iff m.status submitting).0 e)

    retry_or_fail-Balanced :
        (policy : RetryPolicy) (s : S)
        → is_open m.status ≡ true
        → BalancedAfter (retry_or_fail services c payload policy m (db, s))
    unfolding retry_or_fail
    retry_or_fail-Balanced policy s o =
        if-Balanced (should_retry policy payload.event_error m) _ _
          (λ e.
            in_transaction-Balanced _ db _ balanced
              (schedule_retry-Balanced c payload m db found balanced policy _))
          (λ e.
            in_transaction-Balanced (fail_message c payload m) db s balanced
              (λ db' h. fail_message-Balanced c payload m db found balanced db' o h))

    settle_message-Balanced :
        (s : S)
        → is_open m.status ≡ true
        → BalancedAfter (settle_message services c payload m (db, s))
    unfolding settle_message
    settle_message-Balanced s o =
        if-Balanced payload.event_accepted _ _
          (λ e.
            in_transaction-Balanced (confirm_message c payload m) db s balanced
              (λ db' h. confirm_message-Balanced c payload m db found balanced db' o h))
          (λ e.
            if-Balanced payload.event_uncertain _ _
              (λ u.
                in_transaction-Balanced (suspect_message c payload m) db s balanced
                  (suspect_message-Balanced c payload m db found balanced))
              (λ u. retry_or_fail-Balanced _ s o))

    result_for-Balanced : (s : S) → BalancedAfter (result_for services c payload (ok m) (db, s))
    unfolding result_for
    result_for-Balanced s =
        if-Balanced (same_status m.status submitting) _ _
          (λ e. settle_message-Balanced s (submitting-is_open e)) (λ e. record { books = balanced })

    after_dispatch-Balanced :
        (version : ℕ) (outcome : Result (Protocol × DispatchResult) × S) (db' : Db)
        → Balanced db'
        → BalancedAfter (after_dispatch services c payload m version outcome db')
    unfolding after_dispatch
    after_dispatch-Balanced version (outcome, s) db' h =
        in_transaction-Balanced _ db' _ h
          (λ db'' e. report_result-Keeps c payload m version _ _ db' tt db'' h e)

    submit_begun-Balanced :
        (begun : Result ℕ × Db) (s : S)
        → Balanced begun.1
        → BalancedAfter (submit_begun services c payload m begun s)
    unfolding submit_begun
    submit_begun-Balanced (err e, db') s h = record { books = h }
    submit_begun-Balanced (ok version, db') s h = after_dispatch-Balanced version _ db' h

    dispatch_by-Balanced :
        (action : FraudAction) (s : S)
        → BalancedAfter (dispatch_by services c payload m (action, s) db)
    unfolding dispatch_by
    dispatch_by-Balanced FraudAction.block s =
        in_transaction-Balanced (block_message c payload m) db s balanced
          (λ db' h. absurd (block_message_throws c payload m db found db' h))
    dispatch_by-Balanced FraudAction.throttle s =
        in_transaction-Balanced (throttle_message c payload m) db s balanced
          (throttle_message-Balanced c payload m db found balanced)
    dispatch_by-Balanced action s =
        submit_begun-Balanced (with_transaction (begin_submit c payload m) db) s (
          with_transaction_keeps Balanced (begin_submit c payload m) db balanced
            (begin_submit-Balanced c payload m db found balanced))

    dispatch_message-Balanced :
        (s : S) → BalancedAfter (dispatch_message services c payload (ok m) (db, s))
    unfolding dispatch_message
    dispatch_message-Balanced s =
        if-Balanced (same_status m.status routed || same_status m.status submitting) _ _
          (λ e. by_action _) (λ e. record { books = balanced })
      where
        by_action :
            (judged : FraudAction × S) → BalancedAfter (dispatch_by services c payload m judged db)
        by_action (action, s') = dispatch_by-Balanced action s'

  -- If the books are balanced, they are balanced after `handleAccepted`, for any services and any
  -- payload, whether the handler returns or throws.
  pub handle_accepted-Balanced :
      (s : S) → BalancedAfter (handle_accepted services c payload (db, s))
  unfolding handle_accepted get_message_row accept_message
  handle_accepted-Balanced s = elim (Option-cases (find_message payload.message_ref db)) [
    | inl gone ↦ rw gone (record { books = balanced })
    | inr (m, found) ↦ rw found (accept_message-Balanced m found s)
  ]

  -- If the books are balanced, they are balanced after `handleRetry`, for any services and any
  -- payload, whether the handler returns or throws.
  pub handle_retry-Balanced : (s : S) → BalancedAfter (handle_retry services c payload (db, s))
  unfolding handle_retry get_message_row retry_message
  handle_retry-Balanced s = elim (Option-cases (find_message payload.message_ref db)) [
    | inl gone ↦ rw gone (record { books = balanced })
    | inr (m, found) ↦ rw found (retry_message-Balanced m found s)
  ]

  -- If the books are balanced, they are balanced after `handleDispatch`, for any services and any
  -- payload, whether the handler returns or throws.
  pub handle_dispatch-Balanced :
      (s : S) → BalancedAfter (handle_dispatch services c payload (db, s))
  unfolding handle_dispatch get_message_row dispatch_message
  handle_dispatch-Balanced s = elim (Option-cases (find_message payload.message_ref db)) [
    | inl gone ↦ rw gone (record { books = balanced })
    | inr (m, found) ↦ rw found (dispatch_message-Balanced m found s)
  ]

  -- If the books are balanced (for each tenant, the reservations in the ledger less the debits and
  -- releases are the sum of what its messages hold, a message holds its price exactly while it is
  -- open, no reservation that is still held has been debited or released, and no identity is used
  -- before it is given out), they are balanced after `handleDispatchResult`, for any services and
  -- any payload, whether the handler returns or throws.
  pub handle_dispatch_result-Balanced :
      (s : S) → BalancedAfter (handle_dispatch_result services c payload (db, s))
  unfolding handle_dispatch_result get_message_row result_for
  handle_dispatch_result-Balanced s = elim (Option-cases (find_message payload.message_ref db)) [
    | inl gone ↦ rw gone (record { books = balanced })
    | inr (m, found) ↦ rw found (result_for-Balanced m found s)
  ]
