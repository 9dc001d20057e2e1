-- ===== src/Routing/Stored.antt =====
-- `selectRoute` of routing/routing.service.ts from the stored rules.
use sms_platform_backend.Base.{
  ℕ, zero, suc, get_elem?, arith, ◌≡◌, refl, true, Option, none, some, List, [], ◌∷◌, keep_rows,
  All, All-map, All-kept, All-keep_rows, ok, Bool-cases, inl, inr, Result, subst,
}
use sms_platform_backend.Database.{Text, TrafficType}
use sms_platform_backend.Submission.Pricing.{PricingRow}
use sms_platform_backend.Workflow.Services.{RouteDecision, RouteSelectionOptions}
use sms_platform_backend.Routing.Select.{
  RoutingRuleRow, ProviderMetrics, select_route, decision_of, is_eligible, may_dispatch,
}
use sms_platform_backend.Routing.Winner.{Wins, select_route-Wins}
use sms_platform_backend.Routing.Rules.{
  StoredRule, RuleCache, is_rule_for, goes_before, insert_rule, in_order, selected_columns,
  query_rules, rules_or_query, get_rules, costs_for, select_stored_route,
}

module _ {κ} (P : StoredRule → Type κ) where
  All-insert_rule :
      (row : StoredRule) (rs : List StoredRule) → P row → All P rs → All P (insert_rule row rs)
  unfolding insert_rule
  All-insert_rule row [] h all = (h, tt)
  All-insert_rule row (r ∷ rs) h all = elim (Bool-cases (goes_before r row)) [
    | inl e ↦ rw e (all.0, All-insert_rule row rs h all.1)
    | inr e ↦ rw e (h, all)
  ]

  All-in_order : (rows : List StoredRule) → All P rows → All P (in_order rows)
  unfolding in_order
  All-in_order [] all = tt
  All-in_order (row ∷ rows) all =
      All-insert_rule row (in_order rows) all.0 (All-in_order rows all.1)

  All-columns :
      (Q : RoutingRuleRow → Type κ) (rows : List StoredRule)
      → ((row : StoredRule) → P row → Q row.stored_rule)
      → All P rows
      → All Q (selected_columns rows)
  All-columns Q [] step all = tt
  All-columns Q (row ∷ rows) step all = (step row all.0, All-columns Q rows step all.1)

All-zip {ℓ κ μ} :
    {A : Type ℓ}
    → (P : A → Type κ) (Q : A → Type μ) (xs : List A) → All P xs
    → All Q xs
    → All (λ x. P x × Q x) xs
All-zip P Q [] ps qs = tt
All-zip P Q (x ∷ xs) ps qs = ((ps.0, qs.0), All-zip P Q xs ps.1 qs.1)

All-at {ℓ κ} :
    {A : Type ℓ}
    → (Q : A → Type κ) (xs : List A) (i : ℕ) (x : A) → All Q xs
    → get_elem? xs i ≡ some x
    → Q x
All-at Q [] i x all at = cc
All-at Q (y ∷ ys) zero x all at = (let same : y ≡ x = ground arith in subst Q same all.0)
All-at Q (y ∷ ys) (suc i) x all at = All-at Q ys i x all.1 at

abbrev pub IsStored : List StoredRule → StoredRule → Type 0
IsStored rows row = (i : ℕ) × (get_elem? rows i ≡ some row)

all-IsStored : (rows : List StoredRule) → All (IsStored rows) rows
all-IsStored [] = tt
all-IsStored (row ∷ rows) = ((0, refl), All-map rows (λ x (i, at). (suc i, at)) (all-IsStored rows))

-- The columns of a stored rule of the tenant, or of all tenants, for the traffic.
abbrev pub FromTable : ℕ → TrafficType → List StoredRule → RoutingRuleRow → Type 0
FromTable tenant traffic rows rule =
    (row : StoredRule) × (IsStored rows row × (is_rule_for tenant traffic row ≡ true))
    × (row.stored_rule ≡ rule)

query_rules-FromTable :
    (tenant : ℕ) (traffic : TrafficType) (rows : List StoredRule)
    → All (FromTable tenant traffic rows) (query_rules tenant traffic rows)
unfolding query_rules
query_rules-FromTable tenant traffic rows =
    let w = is_rule_for tenant traffic in
    let kept = keep_rows w rows in
    let fits : StoredRule → Type 0 = λ row. IsStored rows row × (w row ≡ true) in
    let all =
      All-zip (IsStored rows) (λ row. w row ≡ true) kept
        (All-keep_rows (IsStored rows) w rows (all-IsStored rows)) (All-kept w rows) in
    All-columns fits (FromTable tenant traffic rows) (in_order kept) (λ row h. (row, h, refl))
      (All-in_order fits kept all)

module _ {R : Type 0} (cache : RuleCache R) (metrics : ℕ → ProviderMetrics)
    (pricing : List PricingRow) where
  -- If no rules of the tenant and the traffic type are cached and `selectRoute` returns a route, it
  -- is that of a row of `routing_rules` that is active, for the traffic type, and of the tenant or
  -- of all tenants, with the costs that `getUnitCosts` finds; the row is not excluded, its provider
  -- may take a dispatch, and no such rule has a lower score.
  pub select_stored_route-FromTable :
      (now tenant : ℕ) (phone : Text) (traffic : TrafficType) (options : RouteSelectionOptions)
      (rows : List StoredRule) (r : R) (d : RouteDecision)
      → cache.get_rules_json tenant traffic r ≡ none
      → (select_stored_route cache metrics pricing now tenant phone traffic options rows r).0 ≡ ok d
      → Wins traffic options metrics
          (costs_for cache metrics pricing now phone traffic options
            (query_rules tenant traffic rows))
          (query_rules tenant traffic rows)
          d
        × ((rule : RoutingRuleRow) × FromTable tenant traffic rows rule
            × (is_eligible options rule ≡ true)
            × (may_dispatch traffic options metrics
                  (costs_for cache metrics pricing now phone traffic options
                    (query_rules tenant traffic rows))
                  rule
                ≡ true)
            × (d
                ≡ decision_of traffic options metrics
                    (costs_for cache metrics pricing now phone traffic options
                      (query_rules tenant traffic rows))
                    rule))
  unfolding select_stored_route get_rules
  select_stored_route-FromTable now tenant phone traffic options rows r d missing h =
      let rules = query_rules tenant traffic rows in
      let costs = costs_for cache metrics pricing now phone traffic options rules in
      let chosen : Option (List RoutingRuleRow) → Result RouteDecision = λ cached.
        let found = (rules_or_query cache cached tenant traffic rows r).0 in
        select_route traffic options metrics
          (costs_for cache metrics pricing now phone traffic options found) found in
      let wins : Wins traffic options metrics costs rules d =
        select_route-Wins traffic options metrics costs rules d
          (subst (λ cached. chosen cached ≡ ok d) missing h) in
      let (rule, (i, at), eligible, may, same) = wins.0 in
      (
        wins,
        (
          rule,
          All-at (FromTable tenant traffic rows) rules i rule
              (query_rules-FromTable tenant traffic rows) at,
          eligible,
          may,
          same,
        ),
      )
