-- ===== src/Fraud/Evaluate.antt =====
-- `evaluate` and `enforceSubmission` of fraud/fraud.service.ts. The score is in hundredths.
use sms_platform_backend.Base.{
  ℕ, zero, suc, ◌+◌, ◌/◌, Bool, true, false, ◌&&◌, ◌||◌, Option, none, some, List, [], ◌∷◌, ◌++◌,
  ◌==◌, ltb, leb, if◌then◌else◌, length, find_first, Result, ok, err, fraud_blocked,
  fraud_throttled,
}
use sms_platform_backend.Database.{Clock, Text, same_text, TrafficType, marketing}
use sms_platform_backend.Workflow.Services.{FraudEvaluationInput, FraudAction}
use sms_platform_backend.Fraud.Rules.{
  keyword_block, prefix_block, sender_block, other_rule, FraudRuleRow, FraudTables, VelocityKey,
  velocity_key, prefix_key, FraudCache, get_rules, get_tenant_priority_tier,
}

-- `actionPriority`
unfoldable pub action_priority : FraudAction → ℕ
action_priority FraudAction.block = 4
action_priority FraudAction.throttle = 3
action_priority FraudAction.alert = 2
action_priority _ = 1

-- `mergeAction`
unfoldable pub merge_action : FraudAction → FraudAction → FraudAction
unfolding action_priority
merge_action current next =
    if ltb (action_priority current) (action_priority next) then next else current

pub data Reason : Type 0 where
  keyword prefix sender provider_error : Text → Reason
  velocity_threshold prefix_velocity_threshold low_trust_marketing_url : Reason

-- `FraudEvaluationResult`
pub record FraudEvaluationResult : Type 0 where
  pub action : FraudAction
  pub reasons : List Reason
  pub score : ℕ

-- `text.startsWith(start)`
abbrev pub starts_with : Text → Text → Bool
starts_with [] text = true
starts_with (u ∷ us) [] = false
starts_with (u ∷ us) (v ∷ vs) = u == v && starts_with us vs

-- `text.includes(part)`
abbrev pub includes : Text → Text → Bool
includes part [] = starts_with part []
includes part (v ∷ vs) = starts_with part (v ∷ vs) || includes part vs

-- A letter of ASCII in lower case.
abbrev pub ascii_lower : ℕ → ℕ
ascii_lower u = if leb b'A' u && leb u b'Z' then u + 32 else u

abbrev pub lowered : Text → Text
lowered [] = []
lowered (u ∷ us) = ascii_lower u ∷ lowered us

abbrev pub http_scheme : Text
http_scheme = b'h' ∷ b't' ∷ b't' ∷ b'p' ∷ b':' ∷ b'/' ∷ b'/' ∷ []

abbrev pub https_scheme : Text
https_scheme = b'h' ∷ b't' ∷ b't' ∷ b'p' ∷ b's' ∷ b':' ∷ b'/' ∷ b'/' ∷ []

-- `/https?:\/\//i.test(body)`
unfoldable pub has_url : Text → Bool
has_url body = includes http_scheme (lowered body) || includes https_scheme (lowered body)

abbrev pub is_marketing : TrafficType → Bool
is_marketing marketing = true
is_marketing _ = false

-- `mlScore`
unfoldable pub ml_score : FraudEvaluationInput → ℕ
unfolding has_url
ml_score input =
    (if is_marketing input.fraud_traffic then 15 else 0)
    + (if ltb 300 (length input.fraud_body) then 10 else 0)
    + (if has_url input.fraud_body then 20 else 0)

-- A value that is found counts unless it is the empty string.
abbrev pub truthy_text : Option Text → Option Text
truthy_text (some (u ∷ us)) = some (u ∷ us)
truthy_text _ = none

abbrev pub take_units : ℕ → Text → Text
take_units zero text = []
take_units (suc n) [] = []
take_units (suc n) (u ∷ us) = u ∷ take_units n us

-- The thresholds of the counters.
abbrev pub max_velocity : ℕ
max_velocity = 5000

abbrev pub max_prefix_hits : ℕ
max_prefix_hits = 7500

-- `to_lower` is String.prototype.toLowerCase.
module _ (to_lower : Text → Text) (input : FraudEvaluationInput) where
  unfoldable pub hit_of : FraudRuleRow → Option Reason
  hit_of rule = elim rule.rule_type [
    | keyword_block ↦
        (elim (truthy_text
          (find_first (λ v. includes (to_lower v) (to_lower input.fraud_body)) rule.rule_values)) [
            | some v ↦ some (keyword v)
            | none ↦ none
          ])
    | prefix_block ↦
        (elim (truthy_text (find_first (λ v. starts_with v input.fraud_phone) rule.rule_values)) [
          | some v ↦ some (prefix v)
          | none ↦ none
        ])
    | sender_block ↦
        (elim (truthy_text (
          find_first (λ v. same_text (to_lower input.fraud_sender) (to_lower v))
            rule.rule_values)) [ some v ↦ some (sender v) | none ↦ none ])
    | other_rule ↦ none
  ]

  -- One reason, and the action that comes with it.
  abbrev pub raised : Reason → FraudAction → ℕ → FraudEvaluationResult → FraudEvaluationResult
  raised reason next points result = record {
    action = merge_action result.action next;
    reasons = result.reasons ++ reason ∷ [];
    score = result.score + points;
  }

  abbrev pub apply_hit :
      Option Reason → FraudRuleRow → FraudEvaluationResult → FraudEvaluationResult
  apply_hit none rule result = result
  apply_hit (some reason) rule result = raised reason rule.rule_action 0 result

  -- The loop over the rules.
  unfoldable pub apply_rules : List FraudRuleRow → FraudEvaluationResult → FraudEvaluationResult
  unfolding hit_of merge_action
  apply_rules [] result = result
  apply_rules (rule ∷ rules) result = apply_rules rules (apply_hit (hit_of rule) rule result)

  abbrev pub raised_if :
      Bool → Reason → FraudAction → ℕ → FraudEvaluationResult → FraudEvaluationResult
  raised_if b reason next points result = if b then raised reason next points result else result

  -- The condition on a marketing message with a link.
  abbrev pub low_trust : ℕ → Bool
  low_trust tier = leb tier 1 && (is_marketing input.fraud_traffic && has_url input.fraud_body)

  -- What `evaluate` computes from the rules, the tier and the two counters.
  unfoldable pub judge : List FraudRuleRow → ℕ → ℕ → ℕ → FraudEvaluationResult
  unfolding apply_rules ml_score has_url
  judge rules tier count prefix_hits =
      raised_if (low_trust tier) low_trust_marketing_url FraudAction.block 35 (
        raised_if (ltb max_prefix_hits prefix_hits) prefix_velocity_threshold FraudAction.throttle
          20
          (raised_if (ltb max_velocity count) velocity_threshold FraudAction.throttle 30 (
            apply_rules rules
              (record { action = FraudAction.allow; reasons = []; score = ml_score input }))))

-- The exceptions of `enforceSubmission`.
abbrev pub refusal : FraudAction → Result (Unit {0})
refusal FraudAction.block = err fraud_blocked
refusal FraudAction.throttle = err fraud_throttled
refusal _ = ok tt

module _ {R : Type 0} (cache : FraudCache R) (to_lower : Text → Text) (c : Clock) where
  -- INCR, and EXPIRE for a new counter.
  unfoldable pub count_up : VelocityKey → R → ℕ × R
  count_up k r = let (n, r') = cache.incr k r in (n, if n == 1 then cache.expire k r' else r')

  -- `evaluate`
  unfoldable pub evaluate :
      FraudEvaluationInput → FraudTables × R → FraudEvaluationResult × (FraudTables × R)
  evaluate input (db, r) =
      let (rules, r1) = get_rules cache input.fraud_tenant db r in
      let (tier, r2) = get_tenant_priority_tier cache input.fraud_tenant db r1 in
      let minute = c.now / 60000 in
      let (count, r3) = count_up (velocity_key input.fraud_tenant input.fraud_sender minute) r2 in
      let (prefix_hits, r4) =
        count_up (prefix_key input.fraud_tenant (take_units 7 input.fraud_phone) minute) r3 in
      (judge to_lower input rules tier count prefix_hits, (db, r4))

  -- `enforceSubmission`
  unfoldable pub enforce_submission :
      FraudEvaluationInput → FraudTables × R → Result (Unit {0}) × (FraudTables × R)
  unfolding evaluate
  enforce_submission input w = let (result, w') = evaluate input w in (refusal result.action, w')
