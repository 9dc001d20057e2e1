-- ===== src/Tests/RoutingTests.antt =====
-- The choice of a route on concrete inputs.
use sms_platform_backend.Base.{
  All, ◌⊎◌, ℤ, ◌≡◌, List, false, true, ℕ, ◌==◌, ℤ, pos, ◌-ℤ◌, refl, none, some, List, [], ◌∷◌,
  false, if◌then◌else◌, Option,
}
use sms_platform_backend.Database.{transactional}
use sms_platform_backend.Circuit.Store.{closed, opened}
use sms_platform_backend.Workflow.Services.{RouteDecision, RouteSelectionOptions}
use sms_platform_backend.Routing.Select.{
  RoutingRuleRow, ProviderMetrics, select_route, select_among, winner_of, lowest, lower, candidates,
  decision_of, may_dispatch, is_eligible, score_of,
}
use sms_platform_backend.Routing.Costs.{cost_at, get_unit_costs}
use sms_platform_backend.Routing.Rules.{
  StoredRule, RuleCache, is_rule_for, goes_before, insert_rule, in_order, query_rules, get_rules,
  costs_for, select_stored_route,
}
use sms_platform_backend.Routing.Stored.{FromTable, select_stored_route-FromTable}
use sms_platform_backend.Routing.Newest.{is_unit_cost_of, get_unit_costs-Newest}
use sms_platform_backend.Submission.Content.{CountryCode}
use sms_platform_backend.Submission.Pricing.{PricingRow, provider_cost, Newest}
use sms_platform_backend.Routing.Winner.{Wins}

abbrev rule : ℕ → ℕ → ℕ → RoutingRuleRow
rule id provider priority = record {
  rule_id = id;
  rule_provider = provider;
  rule_smpp_config = none;
  preferred_protocol = none;
  priority = priority;
  weight = 0;
  cost_rank = 0;
}

-- Provider 5 has an open circuit, and provider 7 is excluded.
abbrev rules : List RoutingRuleRow
rules = rule 1 5 1 ∷ rule 2 6 3 ∷ rule 3 4 2 ∷ rule 4 7 0 ∷ []

abbrev options : RouteSelectionOptions
options = record {
  excluded_provider_ids = 7 ∷ [];
  excluded_rule_ids = [];
  prefer_protocol = none;
  allow_open_circuit_probe = false;
}

abbrev metrics : ℕ → ProviderMetrics
metrics provider = record {
  circuit_state = if provider == 5 then opened else closed;
  error_rate = 0;
  latency_ms = 100;
}

abbrev costs : ℕ → Option ℤ
costs provider = some (pos 20)

abbrev chosen : RouteDecision
chosen = decision_of transactional options metrics costs (rule 3 4 2)

abbrev cost_since : ℕ → ℤ → PricingRow
cost_since time price = record {
  pricing_kind = provider_cost;
  pricing_tenant = none;
  pricing_provider = some 7;
  pricing_country = CountryCode.et;
  pricing_traffic = transactional;
  parts_from = 1;
  parts_to = 10;
  is_active = true;
  effective_from = time;
  effective_to = none;
  unit_price_minor = price;
}

abbrev cost_rules : List PricingRow
cost_rules = cost_since 100 (pos 30) ∷ cost_since 300 (pos 20) ∷ cost_since 200 (pos 25) ∷ []

newest_cost :
    cost_at (get_unit_costs 5000 cost_rules (7 ∷ []) CountryCode.et transactional) 7 ≡ some (pos 20)
unfolding get_unit_costs cost_at
newest_cost = refl

get_unit_costs-Newest_example :
    (All
        (λ row. is_unit_cost_of 5000 (7 ∷ []) CountryCode.et transactional 7 row ≡ false)
        cost_rules
      × (cost_at (get_unit_costs 5000 cost_rules (7 ∷ []) CountryCode.et transactional) 7 ≡ none))
    ⊎ ((row : PricingRow) × Newest
          (is_unit_cost_of 5000 (7 ∷ []) CountryCode.et transactional 7)
          cost_rules
          row
        × (cost_at (get_unit_costs 5000 cost_rules (7 ∷ []) CountryCode.et transactional) 7
            ≡ some row.unit_price_minor))
get_unit_costs-Newest_example =
    get_unit_costs-Newest 5000 cost_rules (7 ∷ []) CountryCode.et transactional 7

-- A cache that is always empty.
abbrev no_cache : RuleCache Unit
no_cache = record {
  get_rules_json = λ tenant traffic r. none;
  set_rules_json = λ tenant traffic found r. r;
}

abbrev stored : Option ℕ → RoutingRuleRow → StoredRule
stored tenant row = record {
  stored_tenant = tenant;
  stored_traffic = transactional;
  stored_active = true;
  stored_failover_order = 1;
  stored_rule = row;
}

-- The second rule is of another tenant.
abbrev table : List StoredRule
table = stored none (rule 1 5 1) ∷ stored (some 2) (rule 2 6 3) ∷ stored (some 1) (rule 3 4 2) ∷ []

abbrev queried : List RoutingRuleRow
queried = query_rules 1 transactional table

abbrev table_costs : ℕ → Option ℤ
table_costs = costs_for no_cache metrics cost_rules 5000 [] transactional options queried

abbrev from_table : RouteDecision
from_table = decision_of transactional options metrics table_costs (rule 3 4 2)

select_stored_route-FromTable_example :
    Wins transactional options metrics table_costs queried from_table
    × ((row : RoutingRuleRow) × FromTable 1 transactional table row
        × (is_eligible options row ≡ true)
        × (may_dispatch transactional options metrics table_costs row ≡ true)
        × (from_table ≡ decision_of transactional options metrics table_costs row))
unfolding select_stored_route get_rules query_rules is_rule_for in_order insert_rule goes_before
    select_route select_among is_eligible winner_of lowest candidates may_dispatch decision_of lower
    score_of ◌-ℤ◌
select_stored_route-FromTable_example =
    select_stored_route-FromTable no_cache metrics cost_rules 5000 1 [] transactional options table
      tt from_table refl refl
