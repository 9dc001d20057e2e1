-- ===== src/Submission/Services.antt =====
-- What `submitMessageWithContext` of messages/messages.service.ts is given and calls: the request,
-- and the services of rate limits, compliance, templates, routing, sender ids and fraud.
use sms_platform_backend.Base.{ℕ, Bool, Option, List, Result, ok, err, Error}
use sms_platform_backend.Database.{Text, TrafficType}
use sms_platform_backend.Workflow.Services.{RouteDecision, FraudEvaluationInput}
use sms_platform_backend.Submission.Pricing.{PricingRow}

-- `TenantPolicyRow`
pub record TenantPolicyRow : Type 0 where
  pub api_rate_limit_rps : ℕ
  pub submit_tps_limit : ℕ

-- `SubmissionContext`; `can_send` is `scopes.includes('sms:send')`. An empty key is no key.
pub record SubmissionContext : Type 0 where
  pub context_tenant : ℕ
  pub context_api_key : Option ℕ
  pub can_send : Bool
  pub rate_limit_rps : Option ℕ
  pub daily_quota : Option ℕ
  pub idempotency_key : Option ℕ

-- `SubmitMessageDto`
pub record SubmitMessageDto : Type 0 where
  pub dto_phone_number : Text
  pub dto_body : Option Text
  pub dto_template_ref : Option ℕ
  pub dto_sender : Text
  pub dto_traffic_type : Option TrafficType
  pub dto_client_message_id : Option ℕ

-- The buckets of `consumeSubmissionQuotas`, by template.
pub data Bucket : Type 0 where
  tenant_api_bucket tenant_submit_bucket : ℕ → Bucket
  key_api_bucket : Option ℕ → Bucket
  key_quota_bucket : Option ℕ → ℕ → Bucket

-- A call that may throw, beside the services' state.
abbrev pub Call : Type 0 → Type 0 → Type 0
Call S A = S → Result A × S

pub record SubmissionServices (S : Type 0) : Type 0 where
  pub tenant_policy : ℕ → S → Result TenantPolicyRow
  pub enforce_limit : Bucket → ℕ → ℕ → Call S (Unit {0})
  pub enforce_daily_quota : Bucket → ℕ → Call S (Unit {0})
  pub assert_not_opted_out : ℕ → Text → Call S (Unit {0})
  pub rendered_template : ℕ → ℕ → Call S Text
  pub route_preview : ℕ → Text → TrafficType → Call S RouteDecision
  pub ensure_approved : ℕ → Text → ℕ → Call S (Unit {0})
  pub enforce_submission : FraudEvaluationInput → Call S (Unit {0})
  pub pricing_rules : S → List PricingRow
  -- The digest of a body, of the library node:crypto.
  pub sha256 : Text → ℕ

abbrev pub return : {S : Type 0} {A : Type 0} → A → Call S A
return a s = (ok a, s)

abbrev pub raise : {S : Type 0} {A : Type 0} → Error → Call S A
raise e s = (err e, s)

abbrev pub lift : {S : Type 0} {A : Type 0} → Result A → Call S A
lift r s = (r, s)

infixl 5 ◌>>=◌ ◌>>◌
abbrev pub ◌>>=◌ : {S : Type 0} {A : Type 0} {B : Type 0} → Call S A → (A → Call S B) → Call S B
◌>>=◌ m f s = let (r, s') = m s in elim r [ ok a ↦ f a s' | err e ↦ (err e, s') ]

abbrev pub ◌>>◌ : {S : Type 0} {A : Type 0} {B : Type 0} → Call S A → Call S B → Call S B
m >> k = m >>= λ _. k
