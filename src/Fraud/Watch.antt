-- ===== src/Fraud/Watch.antt =====
-- The two consumers of `onModuleInit` in fraud/fraud.service.ts: the alert that each publishes.
use sms_platform_backend.Base.{Option, none, some, [], ◌∷◌}
use sms_platform_backend.Database.{Clock, Text}
use sms_platform_backend.Workflow.Services.{FraudEvaluationInput, FraudAction}
use sms_platform_backend.Fraud.Rules.{FraudTables, FraudCache}
use sms_platform_backend.Fraud.Evaluate.{
  provider_error, FraudEvaluationResult, truthy_text, evaluate,
}

-- What `publishAlert` sends under the key of the tenant.
abbrev pub Alert : Type 0
Alert = FraudEvaluationInput × FraudEvaluationResult

abbrev pub alert_unless_allowed : FraudEvaluationInput → FraudEvaluationResult → Option Alert
alert_unless_allowed input result = elim result.action [
  | FraudAction.allow ↦ none
  | _ ↦ some (input, result)
]

-- The alert of a provider's error, where the message itself gives cause for none.
abbrev pub provider_alert :
    FraudEvaluationInput → Option Text → FraudEvaluationResult → Option Alert
provider_alert input (some error) result = elim result.action [
  | FraudAction.allow ↦ some (
    input,
    record { action = FraudAction.alert; reasons = provider_error error ∷ []; score = 50 },
  )
  | _ ↦ none
]
provider_alert input none result = none

module _ {R : Type 0} (cache : FraudCache R) (to_lower : Text → Text) (c : Clock) where
  -- The consumer of the realtime dispatches.
  unfoldable pub watch_dispatch :
      FraudEvaluationInput → FraudTables × R → Option Alert × (FraudTables × R)
  watch_dispatch input w =
      let (result, w') = evaluate cache to_lower c input w in
      (alert_unless_allowed input result, w')

  -- The consumer of the dispatch results.
  unfoldable pub watch_result :
      FraudEvaluationInput → Option Text → FraudTables × R → Option Alert × (FraudTables × R)
  watch_result input error w =
      let (result, w') = evaluate cache to_lower c input w in
      (provider_alert input (truthy_text error) result, w')
