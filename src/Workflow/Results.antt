-- ===== src/Workflow/Results.antt =====
-- `handleDispatchResult` of messages/message-workflow.service.ts.
use Prim.Native.Nat.{min}
use sms_platform_backend.Base.{
  ℕ, ◌+◌, ◌-◌, ◌*◌, pos, ◌*ℤ◌, Bool, false, ◌&&◌, Option, none, some, List, [], ◌∷◌, ltb, get_or,
  or_else, any_row, same, length, get_elem?, if◌then◌else◌, Result, ok, err,
}
use sms_platform_backend.Status.{submitting, provider_accepted, failed, same_status}
use sms_platform_backend.Database.{
  Clock, Tx, ◌>>=◌, ◌>>◌, MessageRow, Protocol, released, log_failed, submit_ack, submit_unknown,
  submit_retry_scheduled, sms_retry, sms_reconcile, release_key, debit_key, by_final,
  MessageEventPayload, reconcile_dispatch, uncertain_key, retry_key, ErrorCode, ErrorCode-discrete,
  circuit_open, provider_throttled, throttle, smpp_throttle, http_provider_error,
  provider_dispatch_exception, provider_dispatch_rejected, missing_http_base_url,
  missing_smpp_config, unknown_submit_outcome, dispatch_failed,
}
use sms_platform_backend.Messages.{
  Field, provider_id, smpp_config_id, route_rule_id, provider_message_id, cost_minor,
  last_error_code, billing_state, get_message_row, patch_message, transition_message, log_event,
}
use sms_platform_backend.Wallet.{debit_reserved_wallet, release_reserved_wallet}
use sms_platform_backend.Outbox.{enqueue}
use sms_platform_backend.Workflow.Services.{
  Services, RouteDecision, RouteSelectionOptions, RetryPolicy, truthy,
}
use sms_platform_backend.Workflow.Accept.{
  Handler, message_log, about_message, preferred_protocol, in_transaction,
}

-- A list of one, where there is one.
abbrev pub to_list {ℓ} : {A : Type ℓ} → Option A → List A
to_list none = []
to_list (some a) = a ∷ []

-- `shouldExcludeCurrentProvider`
unfoldable pub should_exclude_current_provider : Option ErrorCode → Bool
should_exclude_current_provider none = false
should_exclude_current_provider (some code) = any_row (same ErrorCode-discrete code) (
    circuit_open ∷ provider_throttled ∷ throttle ∷ smpp_throttle ∷ http_provider_error
    ∷ provider_dispatch_exception ∷ provider_dispatch_rejected ∷ missing_http_base_url
    ∷ missing_smpp_config ∷ [])

-- The debit and the log of an accepted message.
unfoldable pub debit_accepted : MessageEventPayload → MessageRow → MessageRow → Tx (Unit {0})
debit_accepted payload message updated = do
  debit_reserved_wallet message.tenant_id message.price_minor (debit_key payload.message_ref)
      payload.message_ref
  log_event (
      message_log updated payload.message_ref submit_ack submitting provider_accepted
        updated.provider_id payload.event_provider_message)

abbrev pub confirm_fields : MessageEventPayload → List Field
confirm_fields payload =
    provider_message_id payload.event_provider_message ∷ last_error_code none ∷ []

-- The transaction of an accepted result.
unfoldable pub confirm_message : Clock → MessageEventPayload → MessageRow → Tx (Unit {0})
confirm_message c payload message =
    transition_message c message provider_accepted (confirm_fields payload) false
    >>= debit_accepted payload message

-- The log of an uncertain result, and the case for reconciliation.
unfoldable pub report_suspect :
    Clock → MessageEventPayload → MessageRow → MessageRow → Tx (Unit {0})
report_suspect c payload message updated = do
  log_event (
      message_log updated payload.message_ref submit_unknown submitting submitting
        updated.provider_id payload.event_provider_message)
  enqueue c (record {
    topic = sms_reconcile;
    partition = message.tenant_id;
    dedupe = uncertain_key payload.message_ref updated.version;
    content = reconcile_dispatch payload;
    not_before = none;
  })

-- The transaction of an uncertain result: the message stays where it is.
unfoldable pub suspect_message : Clock → MessageEventPayload → MessageRow → Tx (Unit {0})
suspect_message c payload message =
    patch_message c message
      (last_error_code (some (get_or payload.event_error unknown_submit_outcome)) ∷ [])
    >>= report_suspect c payload message

-- The release and the log of a final failure.
unfoldable pub release_failed : MessageEventPayload → MessageRow → MessageRow → Tx (Unit {0})
release_failed payload message updated = do
  release_reserved_wallet message.tenant_id message.price_minor
      (release_key payload.message_ref by_final) payload.message_ref
  log_event (
      message_log updated payload.message_ref log_failed submitting failed updated.provider_id
        payload.event_provider_message)

abbrev pub fail_fields : MessageEventPayload → List Field
fail_fields payload =
    last_error_code (some (get_or payload.event_error dispatch_failed))
    ∷ billing_state released
    ∷ []

-- The transaction of a final failure.
unfoldable pub fail_message : Clock → MessageEventPayload → MessageRow → Tx (Unit {0})
fail_message c payload message =
    transition_message c message failed (fail_fields payload) false
    >>= release_failed payload message

-- `shouldRetry`
unfoldable pub should_retry : RetryPolicy → Option ErrorCode → MessageRow → Bool
should_retry policy none message = false
should_retry policy (some code) message =
    any_row (same ErrorCode-discrete code) policy.retry_on_errors
    && ltb message.attempt_count policy.max_attempts

-- `retryDelaySeconds`: the interval of the attempt, the last one for any later attempt, and 30
-- where there is none.
unfoldable pub retry_delay_seconds : RetryPolicy → ℕ → ℕ
retry_delay_seconds policy attempts =
    get_or
      (get_elem? policy.retry_intervals (min (attempts - 1) (length policy.retry_intervals - 1))) 30

-- The options of the search for another route.
unfoldable pub reroute_options : MessageEventPayload → MessageRow → RouteSelectionOptions
reroute_options payload message = record {
  excluded_provider_ids =
      if should_exclude_current_provider payload.event_error
      then to_list (truthy message.provider_id)
      else [];
  excluded_rule_ids = to_list (truthy message.route_rule_id);
  prefer_protocol = preferred_protocol message.traffic_type;
  allow_open_circuit_probe = false;
}

-- The columns of a retry: those of the next route, or the present ones.
unfoldable pub retry_fields : Result RouteDecision → MessageEventPayload → MessageRow → List Field
retry_fields (ok route) payload message =
    provider_id (some route.route_provider)
    ∷ smpp_config_id (or_else route.route_smpp_config message.smpp_config_id)
    ∷ route_rule_id (some route.routing_rule)
    ∷ cost_minor (route.estimated_unit_cost_minor *ℤ pos message.message_parts)
    ∷ last_error_code payload.event_error
    ∷ []
retry_fields (err e) payload message =
    provider_id message.provider_id
    ∷ smpp_config_id message.smpp_config_id
    ∷ route_rule_id message.route_rule_id
    ∷ last_error_code payload.event_error
    ∷ []

abbrev pub retry_protocol : Result RouteDecision → Option Protocol → Option Protocol
retry_protocol (ok route) protocol = some route.route_protocol
retry_protocol (err e) protocol = protocol

-- The log and the event of a retry.
unfoldable pub announce_retry :
    Clock
    → MessageEventPayload
    → MessageRow
    → RetryPolicy
    → Result RouteDecision
    → MessageRow
    → Tx (Unit {0})
announce_retry c payload message policy next_route updated = do
  log_event (
      message_log updated payload.message_ref submit_retry_scheduled submitting submitting
        updated.provider_id payload.event_provider_message)
  enqueue c (
      about_message message sms_retry (retry_key payload.message_ref updated.version)
        (record payload {
          event_version = updated.version;
          event_accepted = false;
          event_provider = updated.provider_id;
          event_smpp_config = updated.smpp_config_id;
          event_rule = updated.route_rule_id;
          event_protocol = retry_protocol next_route payload.event_protocol;
        })
        (some (c.now + retry_delay_seconds policy message.attempt_count * 1000)))

-- The transaction of a retry.
unfoldable pub schedule_retry :
    Clock → MessageEventPayload → MessageRow → RetryPolicy → Result RouteDecision → Tx (Unit {0})
schedule_retry c payload message policy next_route =
    patch_message c message (retry_fields next_route payload message)
    >>= announce_retry c payload message policy next_route

module _ {S : Type 0} (services : Services S) (c : Clock) (payload : MessageEventPayload) where
  unfoldable pub retry_or_fail : RetryPolicy → MessageRow → Handler S
  retry_or_fail policy message (db, s) =
      if should_retry policy payload.event_error message
      then (let (next_route, s') =
            services.select_route message.tenant_id message.phone_number message.traffic_type
              (reroute_options payload message) s in
          in_transaction (schedule_retry c payload message policy next_route) (db, s'))
      else in_transaction (fail_message c payload message) (db, s)

  unfoldable pub settle_message : MessageRow → Handler S
  settle_message message (db, s) =
      if payload.event_accepted
      then in_transaction (confirm_message c payload message) (db, s)
      else if payload.event_uncertain
      then in_transaction (suspect_message c payload message) (db, s)
      else retry_or_fail
          (services.get_retry_policy message.tenant_id (get_or message.provider_id 0)
            message.traffic_type s)
          message (db, s)

  unfoldable pub result_for : Result MessageRow → Handler S
  result_for (err e) w = (err e, w)
  result_for (ok message) w =
      if same_status message.status submitting then settle_message message w else (ok tt, w)

  -- `handleDispatchResult`
  unfoldable pub handle_dispatch_result : Handler S
  handle_dispatch_result (db, s) = result_for (get_message_row payload.message_ref db) (db, s)
