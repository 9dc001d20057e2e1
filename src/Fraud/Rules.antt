-- ===== src/Fraud/Rules.antt =====
-- The rows of `fraud_rules` and `tenants` that fraud/fraud.service.ts reads, the cache in Redis, and
-- `createRule`, `getRules` and `getTenantPriorityTier`.
use sms_platform_backend.Base.{
  ℕ, suc, ◌+◌, Bool, true, ◌&&◌, Option, none, some, List, [], ◌∷◌, ◌++◌, ◌==◌, get_or, find_first,
  keep_rows,
}
use sms_platform_backend.Database.{Text}
use sms_platform_backend.Workflow.Services.{FraudAction}

-- `rule_type`; any other string is ignored by `evaluate`.
pub data RuleType : Type 0 where
  keyword_block prefix_block sender_block other_rule : RuleType

pub record FraudRuleRow : Type 0 where
  pub rule_id : ℕ
  pub rule_tenant : Option ℕ
  pub rule_name : Text
  pub rule_type : RuleType
  pub rule_action : FraudAction
  pub rule_values : List Text
  pub is_active : Bool

-- `CreateFraudRuleDto`
pub record CreateFraudRuleDto : Type 0 where
  pub name : Text
  pub of_type : RuleType
  pub with_action : FraudAction
  pub for_values : Option (List Text)
  pub activated : Option Bool

pub record FraudTables : Type 0 where
  pub fraud_rules : List FraudRuleRow
  pub next_rule_id : ℕ
  pub tenant_tiers : List (ℕ × ℕ)

-- The counters of one minute, by template.
pub data VelocityKey : Type 0 where
  velocity_key prefix_key : ℕ → Text → ℕ → VelocityKey

-- The commands of Redis that the service uses, on the state `R` of Redis.
pub record FraudCache (R : Type 0) : Type 0 where
  pub get_rules_json : ℕ → R → Option (List FraudRuleRow)
  pub set_rules_json : ℕ → List FraudRuleRow → R → R
  pub delete_rules : ℕ → R → R
  pub get_tier_json : ℕ → R → Option ℕ
  pub set_tier_json : ℕ → ℕ → R → R
  pub incr : VelocityKey → R → ℕ × R
  pub expire : VelocityKey → R → R

abbrev pub is_for : ℕ → Option ℕ → Bool
is_for tenant none = true
is_for tenant (some t) = t == tenant

-- `WHERE (tenant_id = $1 OR tenant_id IS NULL) AND is_active = TRUE`
unfoldable pub active_rules : ℕ → FraudTables → List FraudRuleRow
active_rules tenant db = keep_rows (λ r. is_for tenant r.rule_tenant && r.is_active) db.fraud_rules

-- `result.rows[0]?.priority_tier ?? 1`
abbrev pub stored_tier : ℕ → FraudTables → ℕ
stored_tier tenant db = elim (find_first (λ row. row.0 == tenant) db.tenant_tiers) [
  | some row ↦ row.1
  | none ↦ 1
]

module _ {R : Type 0} (cache : FraudCache R) where
  -- An array is truthy, also an empty one.
  abbrev pub rules_or_read :
      Option (List FraudRuleRow) → ℕ → FraudTables → R → List FraudRuleRow × R
  rules_or_read (some rules) tenant db r = (rules, r)
  rules_or_read none tenant db r =
      let rules = active_rules tenant db in (rules, cache.set_rules_json tenant rules r)

  -- `getRules`
  unfoldable pub get_rules : ℕ → FraudTables → R → List FraudRuleRow × R
  unfolding active_rules
  get_rules tenant db r = rules_or_read (cache.get_rules_json tenant r) tenant db r

  -- A tier of 0 in the cache is falsy.
  abbrev pub tier_or_read : Option ℕ → ℕ → FraudTables → R → ℕ × R
  tier_or_read (some (suc n)) tenant db r = (suc n, r)
  tier_or_read _ tenant db r =
      let tier = stored_tier tenant db in (tier, cache.set_tier_json tenant tier r)

  -- `getTenantPriorityTier`
  unfoldable pub get_tenant_priority_tier : ℕ → FraudTables → R → ℕ × R
  get_tenant_priority_tier tenant db r = tier_or_read (cache.get_tier_json tenant r) tenant db r

  unfoldable pub rule_of : ℕ → CreateFraudRuleDto → ℕ → FraudRuleRow
  rule_of tenant dto id = record {
    rule_id = id;
    rule_tenant = some tenant;
    rule_name = dto.name;
    rule_type = dto.of_type;
    rule_action = dto.with_action;
    rule_values = get_or dto.for_values [];
    is_active = get_or dto.activated true;
  }

  -- `createRule`
  unfoldable pub create_rule :
      ℕ → CreateFraudRuleDto → FraudTables × R → FraudRuleRow × (FraudTables × R)
  unfolding rule_of
  create_rule tenant dto (db, r) =
      let rule = rule_of tenant dto db.next_rule_id in
      (
        rule,
        (
          record db {
            fraud_rules = db.fraud_rules ++ rule ∷ [];
            next_rule_id = db.next_rule_id + 1;
          },
          cache.delete_rules tenant r,
        ),
      )
