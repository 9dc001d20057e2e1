-- ===== src/Workflow/FraudOutcomes.antt =====
-- The transactions of `handleDispatch` (messages/message-workflow.service.ts) for a message that the
-- fraud rules block or throttle.
use sms_platform_backend.Base.{
  ◌||◌, ◌≡◌, ◌≢◌, inl, inr, true, false, ap, ◌∙◌, List, [], ◌∷◌, find_first, some, arith,
  Bool-cases, ok, err, Result-cases, Error,
}
use sms_platform_backend.Status.{routed, submitting, failed, same_status, same_status_iff}
use sms_platform_backend.Database.{
  Db, Clock, bind_ok, with_transaction_err, MessageRow, MessageEventPayload, ErrorCode,
}
use sms_platform_backend.Messages.{
  is_ref, find_message, get_message_row, log_event, Field, patch_message, transition_message,
}
use sms_platform_backend.Messages.Transitions.{
  transition_stores, patch_stores, second_transition_throws,
}
use sms_platform_backend.Outbox.{OutboxEventInput, enqueue}
use sms_platform_backend.Workflow.Services.{Services, FraudAction}
use sms_platform_backend.Workflow.Accept.{handle_retry, retry_message}
use sms_platform_backend.Workflow.Dispatch.{
  throttle_message, delay_throttled, start_submitting, block_message, fail_blocked, blocked_fields,
  release_blocked, dispatch_by, dispatch_message, handle_dispatch, fraud_input,
}

module _ (c : Clock) (payload : MessageEventPayload) (m : MessageRow) (db : Db)
    (found : find_message payload.message_ref db ≡ some m) where
  -- The step to 'submitting' stores the message with the transaction's time.
  pub start_submitting-stores :
      (fields : List Field) (n : MessageRow) (db' : Db)
      → start_submitting c m fields db ≡ ok (n, db')
      → (find_message payload.message_ref db' ≡ some n) × (n.state_changed_at ≡ c.now)
  unfolding start_submitting
  start_submitting-stores fields n db' h = elim (Bool-cases (same_status m.status routed)) [
    | inl e ↦
        (let s =
            transition_stores c payload.message_ref m db submitting [] true n db' found
              (ground arith) in
          (s.0, s.6))
    | inr e ↦
        (let s = patch_stores c payload.message_ref m db fields n db' found (ground arith) in
          (s.0, s.4))
  ]

  pub block_message_throws : (db' : Db) → block_message c payload m db ≢ ok (tt, db')
  unfolding block_message fail_blocked
  block_message_throws db' h =
      let (n, mid, first, tail) =
        bind_ok (start_submitting c m []) (fail_blocked c payload m) db tt db' h in
      let (r, last, second, done) =
        bind_ok (transition_message c n failed blocked_fields false) (release_blocked payload m n)
          mid tt db' tail in
      let (stored, same_time) = start_submitting-stores [] n mid first in
      second_transition_throws c payload.message_ref n mid failed blocked_fields false stored
        same_time r last second

  block_message_err : (e : Error) × (block_message c payload m db ≡ err e)
  block_message_err = elim (Result-cases (block_message c payload m db)) [
    | inl ((tt, db'), h) ↦ absurd (block_message_throws db' h)
    | inr e ↦ e
  ]

-- A dispatch of a routed or submitting message that the fraud rules block throws and leaves the
-- database as it was, for any services: the message is not failed and its reservation is not
-- released.
pub handle_dispatch-blocked :
    {S : Type 0} (services : Services S) (c : Clock) (payload : MessageEventPayload)
    (m : MessageRow) (db : Db) (s s' : S)
    → find_message payload.message_ref db ≡ some m
    → (same_status m.status routed || same_status m.status submitting) ≡ true
    → services.evaluate (fraud_input services c payload m) s ≡ (FraudAction.block, s')
    → (e : Error) × (handle_dispatch services c payload (db, s) ≡ (err e, (db, s')))
unfolding handle_dispatch dispatch_message dispatch_by get_message_row
handle_dispatch-blocked services c payload m db s s' found started blocked =
    let (e, thrown) = block_message_err c payload m db found in
    (e, rw (found, started, blocked, with_transaction_err (block_message c payload m) db e thrown))

enqueue_messages :
    (c : Clock) (event : OutboxEventInput) (db : Db) (a : Unit {0}) (db' : Db)
    → enqueue c event db ≡ ok (a, db')
    → db'.messages ≡ db.messages
unfolding enqueue
enqueue_messages c event db a db' h = ground arith

delay_throttled_messages :
    (c : Clock) (payload : MessageEventPayload) (m n : MessageRow) (db db' : Db)
    → delay_throttled c payload m n db ≡ ok (tt, db')
    → db'.messages ≡ db.messages
unfolding delay_throttled log_event
delay_throttled_messages c payload m n db db' h = enqueue_messages c _ _ tt db' h

throttled_status :
    (c : Clock) (payload : MessageEventPayload) (m : MessageRow) (db db' : Db)
    → find_message payload.message_ref db ≡ some m
    → throttle_message c payload m db ≡ ok (tt, db')
    → (n : MessageRow) × (find_message payload.message_ref db' ≡ some n) × (n.status ≡ m.status)
unfolding throttle_message find_message
throttled_status c payload m db db' found h =
    let (n, mid, first, tail) =
      bind_ok (patch_message c m (Field.last_error_code (some ErrorCode.fraud_throttled) ∷ []))
        (delay_throttled c payload m) db tt db' h in
    let stored =
      patch_stores c payload.message_ref m db
        (Field.last_error_code (some ErrorCode.fraud_throttled) ∷ []) n mid found first in
    (
      n,
      ap (find_first (is_ref payload.message_ref))
            (delay_throttled_messages c payload m n mid db' tail)
          ∙ stored.0,
      stored.1,
    )

-- After a message in status 'routed' was throttled, `handleRetry` does nothing for it on the state
-- that the throttling left, for any services and at any clock.
pub throttled_routed_not_retried :
    {S : Type 0} (services : Services S) (c later : Clock) (payload payload' : MessageEventPayload)
    (m : MessageRow) (db db' : Db) (s : S)
    → find_message payload.message_ref db ≡ some m
    → m.status ≡ routed
    → throttle_message c payload m db ≡ ok (tt, db')
    → payload'.message_ref ≡ payload.message_ref
    → handle_retry services later payload' (db', s) ≡ (ok tt, (db', s))
unfolding handle_retry retry_message get_message_row
throttled_routed_not_retried services c later payload payload' m db db' s found is_routed h same =
    let (n, found', kept) = throttled_status c payload m db db' found h in
    let e : n.status ≡ routed = kept ∙ is_routed in
    rw (same, found') (ground (arith, (same_status_iff n.status submitting).0))
