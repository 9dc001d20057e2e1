-- ===== src/Database/Rows.antt =====
-- The tables of migrations/001_init.sql that the message pipeline reads and writes, as rows, with
-- `MessageRow` and `WalletRow` of messages/messages.service.ts. Dates are day numbers, times are
-- milliseconds, uuids and identities are numbers, money is ℤ. Error texts and JSON metadata are
-- left out: no modelled code reads them back.
use native.Mathlib.Decide.{ℕ_discrete}
use sms_platform_backend.Base.{ℕ, ℤ, ◌==◌, Bool, true, false, ◌&&◌, String, Option, List, [], ◌∷◌}
use sms_platform_backend.Status.{MessageStatus, MessageCompositeId}

-- A JavaScript string that the code looks into, as its UTF-16 code units.
abbrev pub Text : Type 0
Text = List ℕ

-- `a === b` on strings
abbrev pub same_text : Text → Text → Bool
same_text [] [] = true
same_text [] (v ∷ vs) = false
same_text (u ∷ us) [] = false
same_text (u ∷ us) (v ∷ vs) = u == v && same_text us vs

pub data TrafficType : Type 0 where
  transactional otp marketing : TrafficType

pub data Protocol : Type 0 where
  http smpp : Protocol

pub data BillingState : Type 0 where
  pending reserved debited released : BillingState

-- The error codes of a dispatch; `other` is any other string of a retry policy.
pub data ErrorCode : Type 0 where
  timeout throttle smpp_throttle provider_throttled http_provider_error : ErrorCode
  circuit_open provider_dispatch_exception provider_dispatch_rejected : ErrorCode
  missing_provider missing_http_base_url missing_smpp_config unknown_submit_outcome : ErrorCode
  fraud_blocked fraud_throttled dlr_failed dispatch_failed : ErrorCode
  http_status smpp_status other : ℕ → ErrorCode

unfoldable pub ErrorCode-discrete : Discrete ErrorCode
ErrorCode-discrete = hlevel ℕ_discrete

pub record MessageRow : Type 0 where
  pub key : MessageCompositeId
  pub open key use *
  pub client_message_id : Option ℕ
  pub api_idempotency_key : Option ℕ
  pub api_key_id : Option ℕ
  pub source_addr : Option Text
  pub phone_number : Text
  pub body : Text
  pub traffic_type : TrafficType
  pub status : MessageStatus
  pub version : ℕ
  pub attempt_count : ℕ
  pub provider_id : Option ℕ
  pub smpp_config_id : Option ℕ
  pub route_rule_id : Option ℕ
  pub provider_message_id : Option ℕ
  pub price_minor : ℤ
  pub cost_minor : ℤ
  pub billing_state : BillingState
  pub message_parts : ℕ
  pub sent_at : Option ℕ
  pub delivered_at : Option ℕ
  pub failed_at : Option ℕ
  pub state_changed_at : ℕ
  pub last_error_code : Option ErrorCode
  pub campaign_id : Option ℕ
  pub body_hash : Option ℕ

pub record WalletRow : Type 0 where
  pub wallet_id : ℕ
  pub owner : ℕ
  pub available_balance_minor : ℤ
  pub reserved_balance_minor : ℤ
  pub credit_limit_minor : ℤ
  pub wallet_version : ℕ

pub data BillingOperation : Type 0 where
  reserve debit release : BillingOperation

-- The suffix of a `release:` key.
pub data ReleaseCause : Type 0 where
  by_fraud by_final by_dlr : ReleaseCause

-- The idempotency keys of the ledger, by template: `reserve:date:tenant:id`,
-- `debit:date:tenant:id` and `release:date:tenant:id:cause`.
pub data LedgerKey : Type 0 where
  reserve_key debit_key : MessageCompositeId → LedgerKey
  release_key : MessageCompositeId → ReleaseCause → LedgerKey

unfoldable pub LedgerKey-discrete : Discrete LedgerKey
LedgerKey-discrete = hlevel ℕ_discrete

-- A row of `transactions`.
pub record LedgerRow : Type 0 where
  pub ledger_tenant : ℕ
  pub ledger_wallet : ℕ
  pub ledger_ref : MessageCompositeId
  pub kind : BillingOperation
  pub amount_minor : ℤ
  pub balance_before_minor : ℤ
  pub balance_after_minor : ℤ
  pub idempotency_key : LedgerKey

pub data LogEvent : Type 0 where
  api_accepted log_routed log_failed submit_throttled submit_attempt submit_ack : LogEvent
  submit_unknown submit_retry_scheduled log_delivered : LogEvent

-- A row of `message_logs`.
pub record LogRow : Type 0 where
  pub log_ref : MessageCompositeId
  pub event : LogEvent
  pub status_from : Option MessageStatus
  pub status_to : Option MessageStatus
  pub log_provider : Option ℕ
  pub log_provider_message : Option ℕ
  pub attempt_no : ℕ

-- A row of `audit_logs`: the action with the fields of its metadata that the code computes.
pub data AuditRow : Type 0 where
  wallet_audit : ℕ → BillingOperation → ℤ → LedgerKey → AuditRow
  transition_audit : MessageCompositeId → MessageStatus → MessageStatus → ℕ → AuditRow

-- The values of a webhook's JSON payload: texts, finite numbers, and anything else.
pub data Json : Type 0 where
  text : Text → Json
  number : ℕ → Json
  other_json : Json

-- `normalized_status`
pub data DlrStatus : Type 0 where
  is_delivered is_failed is_unknown : DlrStatus

-- `processing_error`
pub data ProcessingNote : Type 0 where
  duplicate_delivered duplicate_failed : ProcessingNote
  note_message_not_found note_unknown_status : ProcessingNote
  note_invalid_delivered note_invalid_failed : ProcessingNote

-- A row of `dlr_webhooks`.
pub record WebhookRow : Type 0 where
  pub received_date : ℕ
  pub webhook_id : ℕ
  pub webhook_provider : ℕ
  pub webhook_tenant : Option ℕ
  pub webhook_message : Option ℕ
  pub webhook_callback : Option ℕ
  pub webhook_payload : List (String × Json)
  pub normalized_status : Option DlrStatus
  pub processed : Bool
  pub processing_error : Option ProcessingNote
