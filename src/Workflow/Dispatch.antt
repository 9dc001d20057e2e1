-- ===== src/Workflow/Dispatch.antt =====
-- `handleDispatch` and `dispatchThroughProvider` of messages/message-workflow.service.ts.
use sms_platform_backend.Base.{
  ℕ, ◌+◌, Bool, true, false, ◌||◌, Option, none, some, List, [], ◌∷◌, get_or, or_else,
  if◌then◌else◌, Error, Result, ok, err, circuit_open_error,
}
use sms_platform_backend.Status.{routed, submitting, failed, same_status}
use sms_platform_backend.Database.{
  Db, Clock, Tx, pure, ◌>>=◌, ◌>>◌, with_transaction, MessageRow, Protocol, http, smpp, released,
  LogRow, log_failed, log_routed, submit_throttled, submit_attempt, sms_retry, sms_dispatch_results,
  release_key, by_fraud, MessageEventPayload, fraud_throttle_key, dispatch_result_key, ErrorCode,
  missing_provider, missing_http_base_url, missing_smpp_config, circuit_open,
  provider_dispatch_exception,
}
use sms_platform_backend.Database
use sms_platform_backend.Messages.{
  Field, last_error_code, billing_state, attempt_count, get_message_row, patch_message,
  transition_message, log_event,
}
use sms_platform_backend.Wallet.{release_reserved_wallet}
use sms_platform_backend.Outbox.{enqueue}
use sms_platform_backend.Workflow.Services.{
  Services, FraudAction, FraudEvaluationInput, DispatchResult, DispatchRequest, ProviderProfile,
  truthy,
}
use sms_platform_backend.Workflow.Accept.{
  World, Handler, message_log, about_message, in_transaction,
}

-- The step to 'submitting' of a message that is not there yet; another is patched in place.
unfoldable pub start_submitting : Clock → MessageRow → List Field → Tx MessageRow
start_submitting c message otherwise =
    if same_status message.status routed
    then transition_message c message submitting [] true
    else patch_message c message otherwise

-- The release and the log of a blocked message.
unfoldable pub release_blocked :
    MessageEventPayload → MessageRow → MessageRow → MessageRow → Tx (Unit {0})
release_blocked payload message moving updated = do
  release_reserved_wallet message.tenant_id message.price_minor
      (release_key payload.message_ref by_fraud) payload.message_ref
  log_event (
      message_log updated payload.message_ref log_failed moving.status failed message.provider_id
        none)

abbrev pub blocked_fields : List Field
blocked_fields = last_error_code (some Database.fraud_blocked) ∷ billing_state released ∷ []

unfoldable pub fail_blocked : Clock → MessageEventPayload → MessageRow → MessageRow → Tx (Unit {0})
fail_blocked c payload message moving =
    transition_message c moving failed blocked_fields false
    >>= release_blocked payload message moving

-- The transaction for a message that the fraud rules block.
unfoldable pub block_message : Clock → MessageEventPayload → MessageRow → Tx (Unit {0})
block_message c payload message = start_submitting c message [] >>= fail_blocked c payload message

-- The log and the retry event of a throttled message; it is tried again in 30 seconds.
unfoldable pub delay_throttled :
    Clock → MessageEventPayload → MessageRow → MessageRow → Tx (Unit {0})
delay_throttled c payload message updated = do
  log_event (
      message_log updated payload.message_ref submit_throttled routed routed message.provider_id
        none)
  enqueue c (
      about_message message sms_retry (fraud_throttle_key payload.message_ref updated.version)
        (record payload { event_version = updated.version }) (some (c.now + 30000)))

-- The transaction for a message that the fraud rules throttle.
unfoldable pub throttle_message : Clock → MessageEventPayload → MessageRow → Tx (Unit {0})
throttle_message c payload message =
    patch_message c message (last_error_code (some Database.fraud_throttled) ∷ [])
    >>= delay_throttled c payload message

unfoldable pub log_attempt : MessageEventPayload → MessageRow → MessageRow → Tx ℕ
log_attempt payload message updated = do
  log_event (
      message_log updated payload.message_ref submit_attempt message.status submitting
        updated.provider_id updated.provider_message_id)
  pure updated.version

-- The transaction before the call of the provider; it returns the version that it wrote.
unfoldable pub begin_submit : Clock → MessageEventPayload → MessageRow → Tx ℕ
begin_submit c payload message =
    start_submitting c message (attempt_count (message.attempt_count + 1) ∷ [])
    >>= log_attempt payload message

-- The transaction after it.
unfoldable pub report_result :
    Clock → MessageEventPayload → MessageRow → ℕ → Protocol → DispatchResult → Tx (Unit {0})
report_result c payload message version protocol result = enqueue c (
    about_message message sms_dispatch_results (dispatch_result_key payload.message_ref version)
      (record payload {
        event_version = version;
        event_accepted = result.accepted;
        event_provider_message = result.provider_message;
        event_error = result.error_code;
        event_retryable = result.retryable;
        event_uncertain = result.uncertain;
        event_protocol = some protocol;
      })
      none)

-- A dispatch that fails before a provider is called.
unfoldable pub not_dispatched : ErrorCode → Bool → DispatchResult
not_dispatched code retryable = record {
  accepted = false;
  provider_message = none;
  error_code = some code;
  retryable = retryable;
  uncertain = false;
}

-- The `catch` around the dispatch.
unfoldable pub caught : MessageEventPayload → Error → Protocol × DispatchResult
caught payload circuit_open_error =
    (get_or payload.event_protocol http, not_dispatched circuit_open true)
caught payload _ =
    (get_or payload.event_protocol http, not_dispatched provider_dispatch_exception true)

module _ {S : Type 0} (services : Services S) (c : Clock) (payload : MessageEventPayload) where
  abbrev request_to : ℕ → DispatchRequest
  request_to provider = record {
    via_provider = provider;
    to_number = payload.event_phone;
    from_sender = payload.event_sender;
    message_text = payload.event_body;
  }

  abbrev with_protocol :
      Protocol → Result DispatchResult × S → Result (Protocol × DispatchResult) × S
  with_protocol protocol (ok result, s) = (ok (protocol, result), s)
  with_protocol protocol (err e, s) = (err e, s)

  unfoldable pub submit_smpp :
      ProviderProfile → Option ℕ → S → Result (Protocol × DispatchResult) × S
  submit_smpp provider none s = (ok (smpp, not_dispatched missing_smpp_config false), s)
  submit_smpp provider (some config) s = elim (services.get_smpp_config config s) [
    | ok found ↦ with_protocol smpp (services.submit_sm found (request_to provider.profile_id) s)
    | err e ↦ (err e, s)
  ]

  unfoldable pub submit_by :
      ProviderProfile → MessageRow → Protocol → S → Result (Protocol × DispatchResult) × S
  submit_by provider message http s =
      if provider.has_base_url
      then with_protocol http (services.http_submit (request_to provider.profile_id) s)
      else (ok (http, not_dispatched missing_http_base_url false), s)
  submit_by provider message smpp s = submit_smpp provider (truthy message.smpp_config_id) s

  -- The part of `dispatchThroughProvider` behind the lookup of the message.
  unfoldable pub submit_message :
      ProviderProfile → Result MessageRow → S → Result (Protocol × DispatchResult) × S
  submit_message provider (err e) s = (err e, s)
  submit_message provider (ok message) s =
      submit_by provider message
        (get_or payload.event_protocol (elim (truthy message.smpp_config_id) [
          | some _ ↦ smpp
          | none ↦ provider.default_protocol
        ]))
        s

  -- `assertProviderDispatchAllowed`, then the rest.
  unfoldable pub submit_allowed :
      ProviderProfile → Result (Unit {0}) × S → Db → Result (Protocol × DispatchResult) × S
  submit_allowed provider (err e, s) db = (err e, s)
  submit_allowed provider (ok allowed, s) db =
      submit_message provider (get_message_row payload.message_ref db) s

  unfoldable pub dispatch_to : Option ℕ → World S → Result (Protocol × DispatchResult) × S
  dispatch_to none (db, s) =
      (ok (get_or payload.event_protocol http, not_dispatched missing_provider false), s)
  dispatch_to (some provider) (db, s) = elim (services.get_provider provider s) [
    | ok profile ↦
        submit_allowed profile
          (services.assert_dispatch_allowed profile.profile_id profile.max_global_tps s) db
    | err e ↦ (err e, s)
  ]

  -- `dispatchThroughProvider`, which reads and does not write the database.
  unfoldable pub dispatch_through_provider : World S → Result (Protocol × DispatchResult) × S
  dispatch_through_provider w = dispatch_to (truthy payload.event_provider) w

  -- What follows the call of the provider: the health record and the result event.
  unfoldable pub after_dispatch :
      MessageRow → ℕ → Result (Protocol × DispatchResult) × S → Db → Result (Unit {0}) × World S
  after_dispatch message version (outcome, s) db =
      let (protocol, result) = elim outcome as (λ _. Protocol × DispatchResult) [
        | ok done ↦ done
        | err e ↦ caught payload e
      ] in
      let s' : S = elim (truthy payload.event_provider) [
        | some provider ↦
            services.record_dispatch_result provider protocol result
              (or_else payload.event_smpp_config message.smpp_config_id) s
        | none ↦ s
      ] in
      in_transaction (report_result c payload message version protocol result) (db, s')

  unfoldable pub submit_begun : MessageRow → Result ℕ × Db → S → Result (Unit {0}) × World S
  submit_begun message (err e, db) s = (err e, (db, s))
  submit_begun message (ok version, db) s =
      after_dispatch message version (dispatch_through_provider (db, s)) db

  unfoldable pub dispatch_by : MessageRow → FraudAction × S → Db → Result (Unit {0}) × World S
  dispatch_by message (FraudAction.block, s) db =
      in_transaction (block_message c payload message) (db, s)
  dispatch_by message (FraudAction.throttle, s) db =
      in_transaction (throttle_message c payload message) (db, s)
  dispatch_by message (action, s) db =
      submit_begun message (with_transaction (begin_submit c payload message) db) s

  abbrev pub fraud_input : MessageRow → FraudEvaluationInput
  fraud_input message = record {
    fraud_tenant = message.tenant_id;
    fraud_phone = message.phone_number;
    fraud_body = message.body;
    fraud_sender = get_or message.source_addr payload.event_sender;
    fraud_traffic = message.traffic_type;
  }

  unfoldable pub dispatch_message : Result MessageRow → Handler S
  dispatch_message (err e) w = (err e, w)
  dispatch_message (ok message) (db, s) =
      if same_status message.status routed || same_status message.status submitting
      then dispatch_by message (services.evaluate (fraud_input message) s) db
      else (ok tt, (db, s))

  -- `handleDispatch`
  unfoldable pub handle_dispatch : Handler S
  handle_dispatch (db, s) = dispatch_message (get_message_row payload.message_ref db) (db, s)
