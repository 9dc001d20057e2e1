-- ===== src/Fraud/Created.antt =====
-- `createRule` of fraud/fraud.service.ts and the submissions that follow it: the cached rules of the
-- tenant are dropped.
use sms_platform_backend.Base.{
  ℕ, ◌+◌, ◌/◌, ◌≡◌, refl, ap, ◌∙◌, Bool, true, ◌&&◌, none, some, List, [], ◌∷◌, ◌++◌, arith, ltb,
  subst, any_row, keep_rows, err, fraud_blocked,
}
use sms_platform_backend.Database.{Clock, Text}
use sms_platform_backend.Workflow.Services.{FraudEvaluationInput, FraudAction}
use sms_platform_backend.Fraud.Rules.{
  FraudRuleRow, CreateFraudRuleDto, FraudTables, velocity_key, prefix_key, FraudCache, is_for,
  active_rules, get_rules, get_tenant_priority_tier, rule_of, create_rule,
}
use sms_platform_backend.Fraud.Evaluate.{
  Reason, take_units, hit_of, low_trust, max_velocity, max_prefix_hits, count_up,
  enforce_submission,
}
use sms_platform_backend.Fraud.Verdict.{
  is_block, asked_by, asked_if, asked, asked_by_rules, enforce_submission_lem,
}

-- What Redis is documented to do: a deleted key is missing.
pub record IsCache {R : Type 0} (cache : FraudCache R) : Type 0 where
  pub deleted :
      (tenant : ℕ) (r : R) → cache.get_rules_json tenant (cache.delete_rules tenant r) ≡ none

any_row-join :
    (p : FraudAction → Bool) (xs ys : List FraudAction)
    → any_row p ys ≡ true
    → any_row p (xs ++ ys) ≡ true
any_row-join p [] ys h = h
any_row-join p (x ∷ xs) ys h = ground (arith, any_row-join p xs ys h)

module _ (to_lower : Text → Text) (input : FraudEvaluationInput) where
  asked_by_rules-last :
      (rules : List FraudRuleRow) (rule : FraudRuleRow) (reason : Reason)
      → hit_of to_lower input rule ≡ some reason
      → rule.rule_action ≡ FraudAction.block
      → any_row is_block (asked_by_rules to_lower input (rules ++ rule ∷ [])) ≡ true
  asked_by_rules-last [] rule reason h b = rw (h, b) refl
  asked_by_rules-last (x ∷ xs) rule reason h b =
      any_row-join is_block (asked_by to_lower input (hit_of to_lower input x) x)
        (asked_by_rules to_lower input (xs ++ rule ∷ [])) (asked_by_rules-last xs rule reason h b)

  asked-last :
      (rules : List FraudRuleRow) (tier count prefix_hits : ℕ)
      → any_row is_block (asked_by_rules to_lower input rules) ≡ true
      → any_row is_block (asked to_lower input rules tier count prefix_hits) ≡ true
  asked-last rules tier count prefix_hits h =
      let hits = asked_by_rules to_lower input rules in
      let by_count = asked_if to_lower input (ltb max_velocity count) FraudAction.throttle in
      let by_prefix =
        asked_if to_lower input (ltb max_prefix_hits prefix_hits) FraudAction.throttle in
      any_row-join is_block
        (asked_if to_lower input (low_trust to_lower input tier) FraudAction.block)
        (by_prefix ++ (by_count ++ hits))
        (any_row-join is_block by_prefix (by_count ++ hits) (any_row-join is_block by_count hits h))

keep_rows-last :
    (p : FraudRuleRow → Bool) (rules : List FraudRuleRow) (rule : FraudRuleRow)
    → p rule ≡ true
    → keep_rows p (rules ++ rule ∷ []) ≡ keep_rows p rules ++ rule ∷ []
keep_rows-last p [] rule h = rw h refl
keep_rows-last p (x ∷ xs) rule h = ground (arith, keep_rows-last p xs rule h)

module _ {R : Type 0} (cache : FraudCache R) (lawful : IsCache cache) (to_lower : Text → Text) where
  -- The rules that are read after the call.
  created_rules :
      (tenant : ℕ) (dto : CreateFraudRuleDto) (db db' : FraudTables) (r r' : R)
      (rule : FraudRuleRow)
      → create_rule cache tenant dto (db, r) ≡ (rule, (db', r'))
      → rule.is_active ≡ true
      → (get_rules cache tenant db' r').0 ≡ active_rules tenant db ++ rule ∷ []
  unfolding create_rule get_rules rule_of
  created_rules tenant dto db db' r r' rule h active =
      let e1 : rule_of cache tenant dto db.next_rule_id ≡ rule = ap (λ x. x.0) h in
      let e2 : record db {
        fraud_rules = db.fraud_rules ++ rule_of cache tenant dto db.next_rule_id ∷ [];
        next_rule_id = db.next_rule_id + 1;
      }
          ≡ db' =
        ap (λ x. x.1.0) h in
      let e3 : cache.delete_rules tenant r ≡ r' = ap (λ x. x.1.1) h in
      let fits : (is_for tenant (rule_of cache tenant dto db.next_rule_id).rule_tenant
            && (rule_of cache tenant dto db.next_rule_id).is_active)
          ≡ true =
        ground (arith, ap (λ x. x.is_active) e1) in
      subst (λ x. (get_rules cache tenant db' x).0 ≡ active_rules tenant db ++ rule ∷ []) e3
        (rw (lawful.deleted tenant r, active_rules)
          (subst
            (λ d.
              keep_rows (λ x. is_for tenant x.rule_tenant && x.is_active) d.fraud_rules
              ≡ active_rules tenant db ++ rule ∷ [])
            e2
            (keep_rows-last (λ x. is_for tenant x.rule_tenant && x.is_active) db.fraud_rules
                (rule_of cache tenant dto db.next_rule_id) fits
              ∙ ap (λ x. active_rules tenant db ++ x ∷ []) e1)))

  -- If deleted keys are missing in Redis, then after `createRule` for a tenant with an active rule
  -- of action 'block', whatever rules of the tenant were cached, the next `enforceSubmission` of
  -- the tenant throws the block for every message that the rule hits.
  pub created_rule_blocks :
      (later : Clock) (input : FraudEvaluationInput) (dto : CreateFraudRuleDto)
      (db db' : FraudTables) (r r' : R) (rule : FraudRuleRow) (reason : Reason)
      → create_rule cache input.fraud_tenant dto (db, r) ≡ (rule, (db', r'))
      → rule.is_active ≡ true
      → rule.rule_action ≡ FraudAction.block
      → hit_of to_lower input rule ≡ some reason
      → (enforce_submission cache to_lower later input (db', r')).0 ≡ err fraud_blocked
  created_rule_blocks later input dto db db' r r' rule reason h active blocks hit =
      let minute = later.now / 60000 in
      let r1 = (get_rules cache input.fraud_tenant db' r').1 in
      let tiers = get_tenant_priority_tier cache input.fraud_tenant db' r1 in
      let counts =
        count_up cache to_lower later (velocity_key input.fraud_tenant input.fraud_sender minute)
          tiers.1 in
      let prefixes =
        count_up cache to_lower later
          (prefix_key input.fraud_tenant (take_units 7 input.fraud_phone) minute) counts.1 in
      let rules = active_rules input.fraud_tenant db ++ rule ∷ [] in
      let read : get_rules cache input.fraud_tenant db' r' ≡ (rules, r1) =
        ap (λ x. (x, r1)) (created_rules input.fraud_tenant dto db db' r r' rule h active) in
      ap (λ w. w.0)
        (enforce_submission_lem cache to_lower later input db' r' r1 tiers.1 counts.1 prefixes.1
          rules tiers.0 counts.0 prefixes.0 read refl refl refl)
      ∙ rw
          (asked-last to_lower input rules tiers.0 counts.0 prefixes.0 (
            asked_by_rules-last to_lower input (active_rules input.fraud_tenant db) rule reason hit
              blocks))
          refl
