-- ===== src/Workflow/Bodies.antt =====
-- The transactions of messages/message-workflow.service.ts, each from a database with balanced
-- books and the message as it was read.
use sms_platform_backend.Base.{
  ℕ, ◌+◌, ℤ, pos, ◌-ℤ◌, ◌≡◌, refl, ◌∙◌, inl, inr, true, false, some, List, [], ◌∷◌, arith,
  Bool-cases, Result, ok, err,
}
use sms_platform_backend.Status.{
  MessageStatus, routed, submitting, provider_accepted, failed, same_status,
}
use sms_platform_backend.Database.{
  Db, Clock, Tx, ◌>>=◌, ◌>>◌, bind_ok, MessageRow, Protocol, MessageEventPayload, BillingOperation,
  LedgerKey, LogRow, ErrorCode, debit, release, debit_key, release_key, by_final,
}
use sms_platform_backend.Messages.{
  find_message, Field, patch_message, transition_message, transitioned, log_event,
}
use sms_platform_backend.Wallet.{
  apply_wallet_ledger, debit_reserved_wallet, release_reserved_wallet,
}
use sms_platform_backend.Wallet.Sums.{reserved_change}
use sms_platform_backend.Billing.Books.{is_reserved, is_open, is_settlement, key_ref, Balanced}
use sms_platform_backend.Billing.Steps.{
  Keeps, Keeps-pure, no_billing, Keeps-log_event, Keeps-enqueue, patch-Balanced,
  open_transition-Balanced, settling_transition-Balanced,
}
use sms_platform_backend.Workflow.Services.{RouteDecision, RetryPolicy, DispatchResult}
use sms_platform_backend.Workflow.Accept.{
  announce_routed, routed_fields, route_message, requeue_dispatch,
}
use sms_platform_backend.Workflow.Dispatch.{
  start_submitting, delay_throttled, throttle_message, log_attempt, begin_submit, report_result,
}
use sms_platform_backend.Workflow.Results.{
  debit_accepted, confirm_fields, confirm_message, report_suspect, suspect_message, release_failed,
  fail_fields, fail_message, retry_fields, announce_retry, schedule_retry,
}

announce_routed-Keeps :
    (c : Clock) (payload : MessageEventPayload) (m : MessageRow) (route : RouteDecision)
    (n : MessageRow)
    → Keeps (announce_routed c payload m route n)
unfolding announce_routed log_event
announce_routed-Keeps c payload m route n db a db' h e = Keeps-enqueue c _ _ a db' h e

pub requeue_dispatch-Keeps :
    (c : Clock) (payload : MessageEventPayload) (m : MessageRow)
    → Keeps (requeue_dispatch c payload m)
unfolding requeue_dispatch
requeue_dispatch-Keeps c payload m = Keeps-enqueue c _

delay_throttled-Keeps :
    (c : Clock) (payload : MessageEventPayload) (m n : MessageRow)
    → Keeps (delay_throttled c payload m n)
unfolding delay_throttled log_event
delay_throttled-Keeps c payload m n db a db' h e = Keeps-enqueue c _ _ a db' h e

log_attempt-Keeps :
    (payload : MessageEventPayload) (m n : MessageRow) → Keeps (log_attempt payload m n)
unfolding log_attempt log_event
log_attempt-Keeps payload m n db a db' h e = Keeps-pure n.version _ a db' h e

pub report_result-Keeps :
    (c : Clock) (payload : MessageEventPayload) (m : MessageRow) (v : ℕ) (p : Protocol)
    (r : DispatchResult)
    → Keeps (report_result c payload m v p r)
unfolding report_result
report_result-Keeps c payload m v p r = Keeps-enqueue c _

report_suspect-Keeps :
    (c : Clock) (payload : MessageEventPayload) (m n : MessageRow)
    → Keeps (report_suspect c payload m n)
unfolding report_suspect log_event
report_suspect-Keeps c payload m n db a db' h e = Keeps-enqueue c _ _ a db' h e

announce_retry-Keeps :
    (c : Clock) (payload : MessageEventPayload) (m : MessageRow) (policy : RetryPolicy)
    (next : Result RouteDecision) (n : MessageRow)
    → Keeps (announce_retry c payload m policy next n)
unfolding announce_retry log_event
announce_retry-Keeps c payload m policy next n db a db' h e = Keeps-enqueue c _ _ a db' h e

module _ (c : Clock) (payload : MessageEventPayload) (m : MessageRow) (db : Db)
    (found : find_message payload.message_ref db ≡ some m) (balanced : Balanced db) where
  -- A message that is still open holds its price.
  pub open_holds : is_open m.status ≡ true → is_reserved m.billing_state ≡ true
  unfolding find_message
  open_holds o = balanced.aligned payload.message_ref m found ∙ o

  pub route_message-Balanced :
      (route : RouteDecision) (db' : Db)
      → route_message c payload m route db ≡ ok (tt, db')
      → Balanced db'
  unfolding route_message routed_fields
  route_message-Balanced route db' h =
      let (n, mid, first, rest) =
        bind_ok (transition_message c m routed (routed_fields route m) false)
          (announce_routed c payload m route) db tt db' h in
      announce_routed-Keeps c payload m route n mid tt db'
        (open_transition-Balanced c payload.message_ref m db found balanced routed
          (routed_fields route m) false n mid refl refl first)
        rest

  patch_then :
      {A : Type 0} (fields : List Field) (rest : MessageRow → Tx A) (a : A) (db' : Db)
      → no_billing fields ≡ true
      → ((n : MessageRow) → Keeps (rest n))
      → (patch_message c m fields >>= rest) db ≡ ok (a, db')
      → Balanced db'
  patch_then fields rest a db' plain keeps h =
      let (n, mid, first, tail) = bind_ok (patch_message c m fields) rest db a db' h in
      keeps n mid a db'
        (patch-Balanced c payload.message_ref m db found balanced fields n mid plain first) tail

  -- A transition that ends the reservation, then the debit or the release, then a log row.
  settle_then :
      (next : MessageStatus) (fields : List Field) (operation : BillingOperation) (k : LedgerKey)
      (row : MessageRow → LogRow) (db' : Db)
      → is_open m.status ≡ true
      → is_reserved (transitioned c next fields false m).billing_state ≡ false
      → is_open next ≡ false
      → is_settlement k ≡ true
      → key_ref k ≡ payload.message_ref
      → ((a : ℤ) → reserved_change operation a ≡ pos 0 -ℤ a)
      → (transition_message c m next fields false >>= λ n.
            apply_wallet_ledger m.tenant_id m.price_minor operation k payload.message_ref
            >> log_event (row n))
          db
        ≡ ok (tt, db')
      → Balanced db'
  settle_then next fields operation k row db' o freed shut settles of_ref frees h =
      let (n, mid, first, tail) =
        bind_ok (transition_message c m next fields false)
          (λ n.
            apply_wallet_ledger m.tenant_id m.price_minor operation k payload.message_ref
            >> log_event (row n))
          db tt db' h in
      let (b, mid', pay, logged) =
        bind_ok (apply_wallet_ledger m.tenant_id m.price_minor operation k payload.message_ref)
          (λ _. log_event (row n)) mid tt db' tail in
      Keeps-log_event (row n) mid' tt db'
        (settling_transition-Balanced c payload.message_ref m db found balanced next fields false n
          mid operation k b mid' (open_holds o) freed shut settles of_ref frees first pay)
        logged

  pub confirm_message-Balanced :
      (db' : Db)
      → is_open m.status ≡ true
      → confirm_message c payload m db ≡ ok (tt, db')
      → Balanced db'
  unfolding confirm_message debit_accepted debit_reserved_wallet transitioned
  confirm_message-Balanced db' o h =
      settle_then provider_accepted (confirm_fields payload) debit (debit_key payload.message_ref) _
        db' o refl refl refl refl (λ a. refl) h

  pub fail_message-Balanced :
      (db' : Db)
      → is_open m.status ≡ true
      → fail_message c payload m db ≡ ok (tt, db')
      → Balanced db'
  unfolding fail_message release_failed release_reserved_wallet transitioned
  fail_message-Balanced db' o h =
      settle_then failed (fail_fields payload) release (release_key payload.message_ref by_final) _
        db' o refl refl refl refl (λ a. refl) h

  start_submitting-Balanced :
      (fields : List Field) (n : MessageRow) (db' : Db)
      → no_billing fields ≡ true
      → start_submitting c m fields db ≡ ok (n, db')
      → Balanced db'
  unfolding start_submitting
  start_submitting-Balanced fields n db' plain h = elim (Bool-cases (same_status m.status routed)) [
    | inl e ↦
        open_transition-Balanced c payload.message_ref m db found balanced submitting [] true n db'
          refl refl (ground arith)
    | inr e ↦
        patch-Balanced c payload.message_ref m db found balanced fields n db' plain (ground arith)
  ]

  pub begin_submit-Balanced :
      (v : ℕ) (db' : Db) → begin_submit c payload m db ≡ ok (v, db') → Balanced db'
  unfolding begin_submit
  begin_submit-Balanced v db' h =
      let (n, mid, first, tail) =
        bind_ok (start_submitting c m (Field.attempt_count (m.attempt_count + 1) ∷ []))
          (log_attempt payload m) db v db' h in
      log_attempt-Keeps payload m n mid v db'
        (start_submitting-Balanced (Field.attempt_count (m.attempt_count + 1) ∷ []) n mid refl
          first)
        tail

  pub throttle_message-Balanced :
      (db' : Db) → throttle_message c payload m db ≡ ok (tt, db') → Balanced db'
  unfolding throttle_message
  throttle_message-Balanced db' h =
      patch_then (Field.last_error_code (some ErrorCode.fraud_throttled) ∷ [])
        (delay_throttled c payload m) tt db' refl (delay_throttled-Keeps c payload m) h

  pub suspect_message-Balanced :
      (db' : Db) → suspect_message c payload m db ≡ ok (tt, db') → Balanced db'
  unfolding suspect_message
  suspect_message-Balanced db' h =
      patch_then _ (report_suspect c payload m) tt db' refl (report_suspect-Keeps c payload m) h

  retry_fields-plain :
      (next : Result RouteDecision) → no_billing (retry_fields next payload m) ≡ true
  unfolding retry_fields
  retry_fields-plain (ok route) = refl
  retry_fields-plain (err e) = refl

  pub schedule_retry-Balanced :
      (policy : RetryPolicy) (next : Result RouteDecision) (db' : Db)
      → schedule_retry c payload m policy next db ≡ ok (tt, db')
      → Balanced db'
  unfolding schedule_retry
  schedule_retry-Balanced policy next db' h =
      patch_then (retry_fields next payload m) (announce_retry c payload m policy next) tt db'
        (retry_fields-plain next) (announce_retry-Keeps c payload m policy next) h
