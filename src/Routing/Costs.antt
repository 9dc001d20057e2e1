-- ===== src/Routing/Costs.antt =====
-- `getUnitCosts` of routing/routing.service.ts: what a message costs at each provider.
use sms_platform_backend.Base.{
  ℕ, ℤ, Bool, true, false, ◌&&◌, ◌==◌, ltb, Option, none, some, List, [], ◌∷◌, if◌then◌else◌,
  any_row, keep_rows,
}
use sms_platform_backend.Database.{TrafficType}
use sms_platform_backend.Submission.Content.{CountryCode}
use sms_platform_backend.Submission.Pricing.{
  PricingRow, PricingKind, same_country, same_traffic, still_effective,
}

abbrev pub is_cost : PricingKind → Bool
is_cost PricingKind.sell = false
is_cost PricingKind.provider_cost = true

-- `provider_id = ANY($1)`
abbrev pub any_provider : List ℕ → Option ℕ → Bool
any_provider ids none = false
any_provider ids (some provider) = any_row (λ id. provider == id) ids

-- The WHERE clause.
unfoldable pub is_unit_cost : ℕ → List ℕ → CountryCode → TrafficType → PricingRow → Bool
is_unit_cost now ids country traffic row =
    is_cost row.pricing_kind
    && (any_provider ids row.pricing_provider
        && (same_country row.pricing_country country
            && (same_traffic row.pricing_traffic traffic
                && (row.is_active && still_effective now row.effective_to))))

-- `ORDER BY effective_from DESC`; of rows with the same time, the earlier in the table is first.
unfoldable pub insert_by_date : PricingRow → List PricingRow → List PricingRow
insert_by_date row [] = row ∷ []
insert_by_date row (r ∷ rs) =
    let rest = insert_by_date row rs in
    if ltb row.effective_from r.effective_from then r ∷ rest else row ∷ r ∷ rs

unfoldable pub newest_first : List PricingRow → List PricingRow
unfolding insert_by_date
newest_first [] = []
newest_first (row ∷ rows) = insert_by_date row (newest_first rows)

-- `Map<number, number>`, whose order nothing reads.
abbrev pub CostMap : Type 0
CostMap = List (ℕ × ℤ)

unfoldable pub cost_at : CostMap → ℕ → Option ℤ
cost_at [] provider = none
cost_at ((id, cost) ∷ costs) provider = if id == provider then some cost else cost_at costs provider

-- `if (!costs.has(id)) costs.set(id, price)`; the WHERE clause leaves no row without a provider.
unfoldable pub add_cost : CostMap → Option ℕ → ℤ → CostMap
unfolding cost_at
add_cost costs none price = costs
add_cost costs (some id) price = elim (cost_at costs id) [
  | some known ↦ costs
  | none ↦ (id, price) ∷ costs
]

-- The loop over the rows.
unfoldable pub add_costs : CostMap → List PricingRow → CostMap
unfolding add_cost
add_costs costs [] = costs
add_costs costs (row ∷ rows) =
    add_costs (add_cost costs row.pricing_provider row.unit_price_minor) rows

-- `getUnitCosts`
unfoldable pub get_unit_costs : ℕ → List PricingRow → List ℕ → CountryCode → TrafficType → CostMap
unfolding add_costs newest_first is_unit_cost
get_unit_costs now rules ids country traffic =
    add_costs [] (newest_first (keep_rows (is_unit_cost now ids country traffic) rules))
