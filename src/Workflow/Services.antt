-- ===== src/Workflow/Services.antt =====
-- The services that messages/message-workflow.service.ts calls, as an interface: routing, fraud,
-- providers and the two connectors. Their own state `S` (Redis, provider tables, sessions) is
-- apart from the tables of `Db`. Latencies and error texts are left out.
use sms_platform_backend.Base.{ℕ, ℤ, Bool, Option, none, some, List, Result, zero, suc}
use sms_platform_backend.Database.{Text, TrafficType, Protocol, ErrorCode}

-- `RouteDecision` of routing/routing.service.ts; the score is in ten-thousandths.
pub record RouteDecision : Type 0 where
  pub routing_rule : ℕ
  pub route_provider : ℕ
  pub route_smpp_config : Option ℕ
  pub route_protocol : Protocol
  pub estimated_unit_cost_minor : ℤ
  pub score : ℤ

-- `RouteSelectionOptions`
pub record RouteSelectionOptions : Type 0 where
  pub excluded_provider_ids : List ℕ
  pub excluded_rule_ids : List ℕ
  pub prefer_protocol : Option Protocol
  pub allow_open_circuit_probe : Bool

-- `RetryPolicy`
pub record RetryPolicy : Type 0 where
  pub max_attempts : ℕ
  pub retry_intervals : List ℕ
  pub retry_on_errors : List ErrorCode

-- `FraudEvaluationInput` and the action of `FraudEvaluationResult` of fraud/fraud.service.ts
pub record FraudEvaluationInput : Type 0 where
  pub fraud_tenant : ℕ
  pub fraud_phone : Text
  pub fraud_body : Text
  pub fraud_sender : Text
  pub fraud_traffic : TrafficType

pub data FraudAction : Type 0 where
  allow throttle block alert : FraudAction

-- `DispatchResult` of connectors/http-provider.service.ts
pub record DispatchResult : Type 0 where
  pub accepted : Bool
  pub provider_message : Option ℕ
  pub error_code : Option ErrorCode
  pub retryable : Bool
  pub uncertain : Bool

-- The part of `ProviderProfile` and `SmppConfigProfile` that a dispatch reads.
pub record ProviderProfile : Type 0 where
  pub profile_id : ℕ
  pub default_protocol : Protocol
  pub has_base_url : Bool
  pub max_global_tps : ℕ

pub record DispatchRequest : Type 0 where
  pub via_provider : ℕ
  pub to_number : Text
  pub from_sender : Text
  pub message_text : Text

pub record Services (S : Type 0) : Type 0 where
  pub select_route : ℕ → Text → TrafficType → RouteSelectionOptions → S → Result RouteDecision × S
  pub get_retry_policy : ℕ → ℕ → TrafficType → S → RetryPolicy
  pub evaluate : FraudEvaluationInput → S → FraudAction × S
  pub get_provider : ℕ → S → Result ProviderProfile
  pub assert_dispatch_allowed : ℕ → ℕ → S → Result (Unit {0}) × S
  pub get_smpp_config : ℕ → S → Result ℕ
  pub http_submit : DispatchRequest → S → Result DispatchResult × S
  pub submit_sm : ℕ → DispatchRequest → S → Result DispatchResult × S
  pub record_dispatch_result : ℕ → Protocol → DispatchResult → Option ℕ → S → S

-- JavaScript's truthiness of an id: a missing id and 0 are falsy.
abbrev pub truthy : Option ℕ → Option ℕ
truthy none = none
truthy (some zero) = none
truthy (some (suc n)) = some (suc n)
