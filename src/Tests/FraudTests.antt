-- ===== src/Tests/FraudTests.antt =====
-- Fraud rules with a cache for one tenant.
use sms_platform_backend.Base.{◌≡◌, refl, none, some, Option, List, [], ◌∷◌, err, fraud_blocked}
use sms_platform_backend.Database.{Text, marketing}
use sms_platform_backend.Workflow.Services.{FraudEvaluationInput, FraudAction}
use sms_platform_backend.Fraud.Rules.{
  keyword_block, FraudRuleRow, CreateFraudRuleDto, FraudTables, FraudCache, rule_of, create_rule,
  get_rules, get_tenant_priority_tier,
}
use sms_platform_backend.Fraud.Evaluate.{keyword, hit_of, count_up, enforce_submission}
use sms_platform_backend.Fraud.Verdict.{asked, verdict, enforce_submission_lem}
use sms_platform_backend.Fraud.Created.{IsCache, created_rule_blocks}
use sms_platform_backend.Tests.Sample.{clock}

abbrev Memory : Type 0
Memory = Option (List FraudRuleRow)

abbrev cache : FraudCache Memory
cache = record {
  get_rules_json = λ tenant r. r;
  set_rules_json = λ tenant rules r. some rules;
  delete_rules = λ tenant r. none;
  get_tier_json = λ tenant r. none;
  set_tier_json = λ tenant tier r. r;
  incr = λ k r. (1, r);
  expire = λ k r. r;
}

cache-IsCache : IsCache cache
cache-IsCache = record { deleted = λ tenant r. refl }

abbrev to_lower : Text → Text
to_lower t = t

abbrev dto : CreateFraudRuleDto
dto = record {
  name = [];
  of_type = keyword_block;
  with_action = FraudAction.block;
  for_values = some ((b'w' ∷ b'i' ∷ b'n' ∷ []) ∷ []);
  activated = none;
}

abbrev tables : FraudTables
tables = record { fraud_rules = []; next_rule_id = 1; tenant_tiers = (5, 3) ∷ [] }

abbrev input : FraudEvaluationInput
input = record {
  fraud_tenant = 5;
  fraud_phone = b'+' ∷ b'2' ∷ b'5' ∷ [];
  fraud_body = b'w' ∷ b'i' ∷ b'n' ∷ b'!' ∷ [];
  fraud_sender = [];
  fraud_traffic = marketing;
}

abbrev after : FraudRuleRow × (FraudTables × Memory)
after = create_rule cache 5 dto (tables, some [])

created_rule_blocks_example :
    (enforce_submission cache to_lower clock input (after.1.0, after.1.1)).0 ≡ err fraud_blocked
unfolding create_rule rule_of hit_of
created_rule_blocks_example =
    created_rule_blocks cache cache-IsCache to_lower clock input dto tables after.1.0 (some [])
      after.1.1 after.0 (keyword (b'w' ∷ b'i' ∷ b'n' ∷ [])) refl refl refl refl

enforce_submission_lem_example :
    enforce_submission cache to_lower clock input (tables, some [])
    ≡ (verdict to_lower input (asked to_lower input [] 3 1 1), (tables, some []))
unfolding get_rules get_tenant_priority_tier count_up
enforce_submission_lem_example =
    enforce_submission_lem cache to_lower clock input tables (some []) (some []) (some []) (some [])
      (some []) [] 3 1 1 refl refl refl refl
