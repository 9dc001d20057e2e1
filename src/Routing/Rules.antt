-- ===== src/Routing/Rules.antt =====
-- `getRules` of routing/routing.service.ts with its cache in Redis, and `selectRoute` from the tables.
use sms_platform_backend.Base.{
  ℕ, ℤ, Bool, ◌&&◌, ◌||◌, ◌==◌, ltb, Option, none, some, List, [], ◌∷◌, if◌then◌else◌, keep_rows,
  Result,
}
use sms_platform_backend.Database.{Text, TrafficType}
use sms_platform_backend.Submission.Content.{country_code_for}
use sms_platform_backend.Submission.Pricing.{PricingRow, same_traffic}
use sms_platform_backend.Workflow.Services.{RouteDecision, RouteSelectionOptions}
use sms_platform_backend.Routing.Costs.{cost_at, get_unit_costs}
use sms_platform_backend.Routing.Retry.{id_or_null}
use sms_platform_backend.Routing.Select.{RoutingRuleRow, ProviderMetrics, is_eligible, select_route}

-- A row of `routing_rules`, with the columns that only the query reads.
pub record StoredRule : Type 0 where
  pub stored_tenant : Option ℕ
  pub stored_traffic : TrafficType
  pub stored_active : Bool
  pub stored_failover_order : ℕ
  pub stored_rule : RoutingRuleRow

-- The commands of Redis that the service uses, on the state `R` of Redis.
pub record RuleCache (R : Type 0) : Type 0 where
  pub get_rules_json : ℕ → TrafficType → R → Option (List RoutingRuleRow)
  pub set_rules_json : ℕ → TrafficType → List RoutingRuleRow → R → R

-- The WHERE clause.
unfoldable pub is_rule_for : ℕ → TrafficType → StoredRule → Bool
is_rule_for tenant traffic row =
    id_or_null tenant row.stored_tenant
    && (same_traffic row.stored_traffic traffic && row.stored_active)

-- Before in `ORDER BY priority ASC, failover_order ASC`.
unfoldable pub goes_before : StoredRule → StoredRule → Bool
goes_before a b =
    ltb a.stored_rule.priority b.stored_rule.priority
    || (a.stored_rule.priority == b.stored_rule.priority
        && ltb a.stored_failover_order b.stored_failover_order)

unfoldable pub insert_rule : StoredRule → List StoredRule → List StoredRule
insert_rule row [] = row ∷ []
insert_rule row (r ∷ rs) =
    let rest = insert_rule row rs in if goes_before r row then r ∷ rest else row ∷ r ∷ rs

unfoldable pub in_order : List StoredRule → List StoredRule
in_order [] = []
in_order (row ∷ rows) = insert_rule row (in_order rows)

-- The columns of the SELECT.
abbrev pub selected_columns : List StoredRule → List RoutingRuleRow
selected_columns [] = []
selected_columns (row ∷ rows) = row.stored_rule ∷ selected_columns rows

-- `rules.map((rule) => rule.provider_id)`
abbrev pub provider_ids : List RoutingRuleRow → List ℕ
provider_ids [] = []
provider_ids (rule ∷ rules) = rule.rule_provider ∷ provider_ids rules

unfoldable pub query_rules : ℕ → TrafficType → List StoredRule → List RoutingRuleRow
query_rules tenant traffic rows =
    selected_columns (in_order (keep_rows (is_rule_for tenant traffic) rows))

module _ {R : Type 0} (cache : RuleCache R) where
  -- An array is truthy, also an empty one.
  abbrev pub rules_or_query :
      Option (List RoutingRuleRow) → ℕ → TrafficType → List StoredRule → R → List RoutingRuleRow × R
  rules_or_query (some rules) tenant traffic rows r = (rules, r)
  rules_or_query none tenant traffic rows r =
      let rules = query_rules tenant traffic rows in
      (rules, cache.set_rules_json tenant traffic rules r)

  -- `getRules`
  unfoldable pub get_rules : ℕ → TrafficType → List StoredRule → R → List RoutingRuleRow × R
  get_rules tenant traffic rows r =
      rules_or_query (cache.get_rules_json tenant traffic r) tenant traffic rows r

  module _ (metrics : ℕ → ProviderMetrics) (pricing : List PricingRow) where
    -- The costs of the providers of the rules that the options leave.
    unfoldable pub costs_for :
        ℕ → Text → TrafficType → RouteSelectionOptions → List RoutingRuleRow → ℕ → Option ℤ
    costs_for now phone traffic options rules = cost_at (
        get_unit_costs now pricing (provider_ids (keep_rows (is_eligible options) rules))
          (country_code_for phone) traffic)

    -- `selectRoute`
    unfoldable pub select_stored_route :
        ℕ
        → ℕ
        → Text
        → TrafficType
        → RouteSelectionOptions
        → List StoredRule
        → R
        → Result RouteDecision × R
    select_stored_route now tenant phone traffic options rows r =
        let (rules, r') = get_rules tenant traffic rows r in
        (select_route traffic options metrics (costs_for now phone traffic options rules) rules, r')
