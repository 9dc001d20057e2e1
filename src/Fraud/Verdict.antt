-- ===== src/Fraud/Verdict.antt =====
-- What fraud/fraud.service.ts refuses: `enforceSubmission` against the actions that the rules and
-- the thresholds ask for, in any order.
use sms_platform_backend.Base.{
  ℕ, ◌/◌, ◌≡◌, refl, sym, ap, ◌∙◌, Bool, true, false, Option, none, some, List, [], ◌∷◌, ◌++◌,
  arith, ltb, if◌then◌else◌, any_row, Result, ok, err, fraud_blocked, fraud_throttled,
}
use sms_platform_backend.Database.{Clock, Text}
use sms_platform_backend.Workflow.Services.{FraudEvaluationInput, FraudAction}
use sms_platform_backend.Fraud.Rules.{
  FraudRuleRow, FraudTables, velocity_key, prefix_key, FraudCache, get_rules,
  get_tenant_priority_tier,
}
use sms_platform_backend.Fraud.Evaluate.{
  action_priority, merge_action, Reason, FraudEvaluationResult, take_units, apply_hit, low_trust,
  ml_score, velocity_threshold, prefix_velocity_threshold, low_trust_marketing_url, max_velocity,
  max_prefix_hits, hit_of, raised_if, apply_rules, judge, count_up, evaluate, refusal,
  enforce_submission,
}

abbrev pub is_block : FraudAction → Bool
is_block FraudAction.block = true
is_block _ = false

abbrev pub is_throttle : FraudAction → Bool
is_throttle FraudAction.throttle = true
is_throttle _ = false

abbrev is_alert : FraudAction → Bool
is_alert FraudAction.alert = true
is_alert _ = false

-- The gravest of some actions.
abbrev worst : List FraudAction → FraudAction
worst actions =
    if any_row is_block actions
    then FraudAction.block
    else if any_row is_throttle actions
    then FraudAction.throttle
    else if any_row is_alert actions
    then FraudAction.alert
    else FraudAction.allow

worst-merge :
    (a b : FraudAction) (rest : List FraudAction)
    → worst (merge_action a b ∷ rest) ≡ worst (a ∷ b ∷ rest)
unfolding merge_action action_priority
worst-merge FraudAction.allow b rest = ground arith
worst-merge FraudAction.throttle b rest = ground arith
worst-merge FraudAction.block b rest = ground arith
worst-merge FraudAction.alert b rest = ground arith

worst_one : (a : FraudAction) → worst (a ∷ []) ≡ a
worst_one a = ground arith

merge-worst :
    (b : FraudAction) (rest : List FraudAction) → merge_action (worst rest) b ≡ worst (b ∷ rest)
unfolding merge_action action_priority
merge-worst FraudAction.allow rest = ground arith
merge-worst FraudAction.throttle rest = ground arith
merge-worst FraudAction.block rest = ground arith
merge-worst FraudAction.alert rest = ground arith

module _ (to_lower : Text → Text) (input : FraudEvaluationInput) where
  -- The action of a rule that hits.
  abbrev pub asked_by : Option Reason → FraudRuleRow → List FraudAction
  asked_by none rule = []
  asked_by (some reason) rule = rule.rule_action ∷ []

  abbrev pub asked_by_rules : List FraudRuleRow → List FraudAction
  asked_by_rules [] = []
  asked_by_rules (rule ∷ rules) = asked_by (hit_of to_lower input rule) rule ++ asked_by_rules rules

  abbrev pub asked_if : Bool → FraudAction → List FraudAction
  asked_if b a = if b then a ∷ [] else []

  -- All the actions that a message gives cause for.
  abbrev pub asked : List FraudRuleRow → ℕ → ℕ → ℕ → List FraudAction
  asked rules tier count prefix_hits =
      asked_if (low_trust to_lower input tier) FraudAction.block
      ++ (asked_if (ltb max_prefix_hits prefix_hits) FraudAction.throttle
          ++ (asked_if (ltb max_velocity count) FraudAction.throttle ++ asked_by_rules rules))

  apply_rules-worst :
      (rules : List FraudRuleRow) (r : FraudEvaluationResult)
      → (apply_rules to_lower input rules r).action ≡ worst (r.action ∷ asked_by_rules rules)
  unfolding apply_rules
  apply_rules-worst [] r = sym (worst_one r.action)
  apply_rules-worst (rule ∷ rules) r =
      apply_rules-worst rules (apply_hit to_lower input (hit_of to_lower input rule) rule r)
      ∙ of_hit (hit_of to_lower input rule)
    where
      of_hit :
          (o : Option Reason)
          → worst ((apply_hit to_lower input o rule r).action ∷ asked_by_rules rules)
            ≡ worst (r.action ∷ asked_by o rule ++ asked_by_rules rules)
      of_hit none = refl
      of_hit (some reason) = worst-merge r.action rule.rule_action (asked_by_rules rules)

  raised_if-worst :
      (b : Bool) (reason : Reason) (next : FraudAction) (points : ℕ) (r : FraudEvaluationResult)
      (actions : List FraudAction)
      → r.action ≡ worst actions
      → (raised_if to_lower input b reason next points r).action
        ≡ worst (asked_if b next ++ actions)
  raised_if-worst false reason next points r actions h = h
  raised_if-worst true reason next points r actions h =
      ap (λ a. merge_action a next) h ∙ merge-worst next actions

  judge-worst :
      (rules : List FraudRuleRow) (tier count prefix_hits : ℕ)
      → (judge to_lower input rules tier count prefix_hits).action
        ≡ worst (asked rules tier count prefix_hits)
  unfolding judge
  judge-worst rules tier count prefix_hits =
      let hits = asked_by_rules rules in
      let start : FraudEvaluationResult = record {
        action = FraudAction.allow;
        reasons = [];
        score = ml_score input;
      } in
      let r1 = apply_rules to_lower input rules start in
      let b1 = ltb max_velocity count in
      let r2 = raised_if to_lower input b1 velocity_threshold FraudAction.throttle 30 r1 in
      let b2 = ltb max_prefix_hits prefix_hits in
      let r3 = raised_if to_lower input b2 prefix_velocity_threshold FraudAction.throttle 20 r2 in
      let by_count = asked_if b1 FraudAction.throttle ++ hits in
      raised_if-worst (low_trust to_lower input tier) low_trust_marketing_url FraudAction.block 35
        r3 (asked_if b2 FraudAction.throttle ++ by_count)
        (raised_if-worst b2 prefix_velocity_threshold FraudAction.throttle 20 r2 by_count (
          raised_if-worst b1 velocity_threshold FraudAction.throttle 30 r1 hits
            (apply_rules-worst rules start)))

  refusal-worst :
      (actions : List FraudAction)
      → refusal (worst actions) ≡ (
          if any_row is_block actions
          then err fraud_blocked
          else if any_row is_throttle actions
          then err fraud_throttled
          else ok tt)
  refusal-worst actions = ground arith

  -- What `enforceSubmission` does with a verdict.
  abbrev pub verdict : List FraudAction → Result (Unit {0})
  verdict actions =
      if any_row is_block actions
      then err fraud_blocked
      else if any_row is_throttle actions
      then err fraud_throttled
      else ok tt

module _ {R : Type 0} (cache : FraudCache R) (to_lower : Text → Text) (c : Clock)
    (input : FraudEvaluationInput) (db : FraudTables) where
  -- For the rules, the tier and the two counts that `enforceSubmission` reads, it throws the block
  -- if a rule with action 'block' hits or the message is marketing with a link of a tenant of a low
  -- tier, otherwise the throttle if a rule with action 'throttle' hits or a count is above its
  -- threshold, and otherwise returns; the order of the rules does not matter, and the database is
  -- left as it was.
  pub enforce_submission_lem :
      (r r1 r2 r3 r4 : R) (rules : List FraudRuleRow) (tier count prefix_hits : ℕ)
      → get_rules cache input.fraud_tenant db r ≡ (rules, r1)
      → get_tenant_priority_tier cache input.fraud_tenant db r1 ≡ (tier, r2)
      → count_up cache to_lower c
          (velocity_key input.fraud_tenant input.fraud_sender (c.now / 60000))
          r2
        ≡ (count, r3)
      → count_up cache to_lower c
          (prefix_key input.fraud_tenant (take_units 7 input.fraud_phone) (c.now / 60000))
          r3
        ≡ (prefix_hits, r4)
      → enforce_submission cache to_lower c input (db, r)
        ≡ (verdict to_lower input (asked to_lower input rules tier count prefix_hits), (db, r4))
  unfolding enforce_submission evaluate
  enforce_submission_lem r r1 r2 r3 r4 rules tier count prefix_hits p q s t =
      rw (p, q, s, t)
        (ap (λ v. (v, (db, r4)))
          (ap refusal (judge-worst to_lower input rules tier count prefix_hits)
            ∙ refusal-worst to_lower input (asked to_lower input rules tier count prefix_hits)))
