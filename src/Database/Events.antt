-- ===== src/Database/Events.antt =====
-- The outbox table, the payloads of the Kafka topics (kafka/kafka-topics.ts,
-- `MessageEventPayload` of messages/message-workflow.service.ts) and the deduplication keys.
use native.Mathlib.Decide.{ℕ_discrete}
use sms_platform_backend.Base.{ℕ, Bool, Option}
use sms_platform_backend.Status.{MessageCompositeId}
use sms_platform_backend.Database.Rows.{Text, TrafficType, Protocol, ErrorCode}

pub data KafkaTopic : Type 0 where
  sms_accepted sms_routed sms_dispatch_realtime sms_dispatch_bulk sms_retry : KafkaTopic
  sms_dlr sms_reconcile sms_dispatch_results sms_dlq fraud_alerts : KafkaTopic

pub record MessageEventPayload : Type 0 where
  pub message_ref : MessageCompositeId
  pub event_version : ℕ
  pub event_phone : Text
  pub event_body : Text
  pub event_sender : Text
  pub event_traffic : TrafficType
  pub event_provider : Option ℕ
  pub event_smpp_config : Option ℕ
  pub event_rule : Option ℕ
  pub event_protocol : Option Protocol
  pub event_provider_message : Option ℕ
  pub event_accepted : Bool
  pub event_error : Option ErrorCode
  pub event_retryable : Bool
  pub event_uncertain : Bool

pub data ReconcileReason : Type 0 where
  message_not_found unknown_status : ReconcileReason
  invalid_delivered_transition invalid_failed_transition : ReconcileReason

unfoldable pub ReconcileReason-discrete : Discrete ReconcileReason
ReconcileReason-discrete = hlevel

-- What an outbox row carries: an event about a message, a case for reconciliation (of a dispatch
-- or of a delivery report), or the notice that a report came in.
pub data OutboxPayload : Type 0 where
  message_event : MessageEventPayload → OutboxPayload
  reconcile_dispatch : MessageEventPayload → OutboxPayload
  reconcile_dlr : ℕ → ℕ → ReconcileReason → OutboxPayload
  dlr_received : ℕ → ℕ → ℕ → OutboxPayload

-- The `dedupeKey` templates, with the message and its version, or the report and the reason.
pub data DedupeKey : Type 0 where
  accepted_key : MessageCompositeId → DedupeKey
  dispatch_key retry_dispatch_key fraud_throttle_key dispatch_result_key :
      MessageCompositeId → ℕ → DedupeKey
  uncertain_key retry_key : MessageCompositeId → ℕ → DedupeKey
  dlr_key : ℕ → ℕ → DedupeKey
  dlr_reconcile_key : ℕ → ℕ → ReconcileReason → DedupeKey

unfoldable pub DedupeKey-discrete : Discrete DedupeKey
DedupeKey-discrete = hlevel ℕ_discrete

pub data OutboxStatus : Type 0 where
  waiting publishing published abandoned : OutboxStatus

-- A row of `outbox_events`; `waiting` is 'pending' and `abandoned` is 'failed'.
pub record OutboxRow : Type 0 where
  pub event_date : ℕ
  pub event_id : ℕ
  pub topic_name : KafkaTopic
  pub partition_key : ℕ
  pub dedupe_key : DedupeKey
  pub payload : OutboxPayload
  pub outbox_status : OutboxStatus
  pub retry_count : ℕ
  pub next_attempt_at : ℕ
  pub created_at : ℕ
