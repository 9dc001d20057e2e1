-- ===== src/Submission/Prepare.antt =====
-- The part of `submitMessageWithContext` of messages/messages.service.ts before its transaction.
use sms_platform_backend.Base.{
  ℕ, ℤ, pos, ◌*ℤ◌, Bool, true, false, none, some, [], ◌∷◌, if◌then◌else◌, get_or, ok, missing_scope,
  body_or_template_required, empty_body,
}
use sms_platform_backend.Database.{Clock, Text, TrafficType, transactional}
use sms_platform_backend.Workflow.Services.{RouteDecision, FraudEvaluationInput, truthy}
use sms_platform_backend.Submission.Content.{
  normalize_phone_number, compute_message_parts, country_code_for,
}
use sms_platform_backend.Submission.Pricing.{sell_unit_price_minor}
use sms_platform_backend.Submission.Services.{
  TenantPolicyRow, SubmissionContext, SubmitMessageDto, tenant_api_bucket, tenant_submit_bucket,
  key_api_bucket, key_quota_bucket, Call, SubmissionServices, return, raise, lift, ◌>>=◌, ◌>>◌,
}

-- What the checks hand over to the transaction.
pub record Draft : Type 0 where
  pub draft_phone : Text
  pub draft_body : Text
  pub draft_traffic : TrafficType
  pub draft_route : RouteDecision
  pub draft_parts : ℕ
  pub draft_price : ℤ
  pub draft_cost : ℤ
  pub draft_hash : ℕ

abbrev pub is_empty : Text → Bool
is_empty [] = true
is_empty (u ∷ us) = false

module _ {S : Type 0} (services : SubmissionServices S) (c : Clock) (context : SubmissionContext)
    (dto : SubmitMessageDto) where
  -- `consumeSubmissionQuotas`
  unfoldable pub consume_submission_quotas : TenantPolicyRow → Call S (Unit {0})
  consume_submission_quotas policy = do
    services.enforce_limit (tenant_api_bucket context.context_tenant) policy.api_rate_limit_rps 1
    services.enforce_limit (tenant_submit_bucket context.context_tenant) policy.submit_tps_limit 1
    elim (truthy context.rate_limit_rps) [
      | some limit ↦ services.enforce_limit (key_api_bucket context.context_api_key) limit 1
      | none ↦ return tt
    ]
    elim (truthy context.daily_quota) [
      | some quota ↦
          services.enforce_daily_quota (key_quota_bucket context.context_api_key c.today) quota
      | none ↦ return tt
    ]

  -- The template's text where there is one, and the request's otherwise.
  unfoldable pub body_of : Call S Text
  body_of = elim dto.dto_template_ref [
    | some template ↦ services.rendered_template context.context_tenant template
    | none ↦
        if is_empty (get_or dto.dto_body [])
        then raise body_or_template_required
        else return (get_or dto.dto_body [])
  ]

  abbrev pub submission_input : Text → Text → TrafficType → FraudEvaluationInput
  submission_input phone body traffic = record {
    fraud_tenant = context.context_tenant;
    fraud_phone = phone;
    fraud_body = body;
    fraud_sender = dto.dto_sender;
    fraud_traffic = traffic;
  }

  -- The parts and the prices of a message.
  unfoldable pub priced : Text → Text → TrafficType → RouteDecision → Call S Draft
  priced phone body traffic route s =
      let parts = compute_message_parts body in
      let unit_price =
        sell_unit_price_minor c.now (services.pricing_rules s) context.context_tenant
          (country_code_for phone) traffic parts in
      (
        ok (record {
          draft_phone = phone;
          draft_body = body;
          draft_traffic = traffic;
          draft_route = route;
          draft_parts = parts;
          draft_price = unit_price *ℤ pos parts;
          draft_cost = route.estimated_unit_cost_minor *ℤ pos parts;
          draft_hash = services.sha256 body;
        }),
        s,
      )

  -- The part of `submitMessageWithContext` before the transaction.
  unfoldable pub prepare : Call S Draft
  prepare =
      if context.can_send
      then (do
        policy ← λ s. (services.tenant_policy context.context_tenant s, s)
        consume_submission_quotas policy
        phone ← lift (normalize_phone_number dto.dto_phone_number)
        services.assert_not_opted_out context.context_tenant phone
        body ← body_of
        route ←
            if is_empty body
            then raise empty_body
            else services.route_preview context.context_tenant phone
                (get_or dto.dto_traffic_type transactional)
        services.ensure_approved context.context_tenant dto.dto_sender route.route_provider
        services.enforce_submission
            (submission_input phone body (get_or dto.dto_traffic_type transactional))
        priced phone body (get_or dto.dto_traffic_type transactional) route)
      else raise missing_scope
