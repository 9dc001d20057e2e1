-- ===== src/Routing/Newest.antt =====
-- The unit cost that `getUnitCosts` of routing/routing.service.ts finds for a provider.
use sms_platform_backend.Base.{
  ℕ, ◌≤◌, ℤ, ◌≡◌, refl, subst, ◌==◌, ap, sym, ◌∙◌, Bool, true, false, ◌&&◌, Option, none, some,
  List, [], ◌∷◌, ltb, if◌then◌else◌, or_else, find_first, find_first_holds, find_first-none,
  keep_rows, All, All-map, All-kept, All-find_first, All-keep_rows_under, Option-cases, arith,
  Bool-cases, inl, inr, ◌⊎◌,
}
use sms_platform_backend.Database.{TrafficType}
use sms_platform_backend.Submission.Content.{CountryCode}
use sms_platform_backend.Submission.Pricing.{PricingRow, owned, Newest}
use sms_platform_backend.Routing.Costs.{
  is_unit_cost, insert_by_date, newest_first, CostMap, cost_at, add_cost, add_costs, get_unit_costs,
}

abbrev Sorted : List PricingRow → Type 0
Sorted [] = Unit
Sorted (r ∷ rs) = All (λ y. y.effective_from ≤ r.effective_from) rs × Sorted rs

module _ {κ} (P : PricingRow → Type κ) where
  All-insert_by_date :
      (row : PricingRow) (rs : List PricingRow) → P row → All P rs → All P (insert_by_date row rs)
  unfolding insert_by_date
  All-insert_by_date row [] h all = (h, tt)
  All-insert_by_date row (r ∷ rs) h all =
      elim (Bool-cases (ltb row.effective_from r.effective_from)) [
        | inl e ↦ rw e (all.0, All-insert_by_date row rs h all.1)
        | inr e ↦ rw e (h, all)
      ]

  All-inserted :
      (row : PricingRow) (rs : List PricingRow) → All P (insert_by_date row rs) → P row × All P rs
  unfolding insert_by_date
  All-inserted row [] all = all
  All-inserted row (r ∷ rs) all =
      let either : Bool → Type κ =
        λ b. All P (if b then r ∷ insert_by_date row rs else row ∷ r ∷ rs) in
      elim (Bool-cases (ltb row.effective_from r.effective_from)) [
        | inl e ↦
            (let (first, rest) = subst either e all in
              let (h, others) = All-inserted row rs rest in (h, (first, others)))
        | inr e ↦ subst either e all
      ]

  All-newest_first : (rows : List PricingRow) → All P rows → All P (newest_first rows)
  unfolding newest_first
  All-newest_first [] all = tt
  All-newest_first (row ∷ rows) all =
      All-insert_by_date row (newest_first rows) all.0 (All-newest_first rows all.1)

  All-from_newest_first : (rows : List PricingRow) → All P (newest_first rows) → All P rows
  unfolding newest_first
  All-from_newest_first [] all = tt
  All-from_newest_first (row ∷ rows) all =
      let (h, rest) = All-inserted row (newest_first rows) all in
      (h, All-from_newest_first rows rest)

insert_by_date-Sorted :
    (row : PricingRow) (rs : List PricingRow) → Sorted rs → Sorted (insert_by_date row rs)
unfolding insert_by_date
insert_by_date-Sorted row [] h = (tt, tt)
insert_by_date-Sorted row (r ∷ rs) h = elim (Bool-cases (ltb row.effective_from r.effective_from)) [
  | inl e ↦ rw e (
    All-insert_by_date (λ y. y.effective_from ≤ r.effective_from) row rs (ground arith) h.0,
    insert_by_date-Sorted row rs h.1,
  )
  | inr e ↦
      (let le : r.effective_from ≤ row.effective_from = ground arith in
        rw e ((le, All-map rs (λ x x_le. omega (arith, le, x_le)) h.0), h))
]

newest_first-Sorted : (rows : List PricingRow) → Sorted (newest_first rows)
unfolding newest_first
newest_first-Sorted [] = tt
newest_first-Sorted (row ∷ rows) =
    insert_by_date-Sorted row (newest_first rows) (newest_first-Sorted rows)

-- The first row that passes is the newest of those that pass.
find_first-Sorted :
    (q : PricingRow → Bool) (rows : List PricingRow) (best : PricingRow)
    → Sorted rows
    → find_first q rows ≡ some best
    → All (λ row. q row ≡ true → row.effective_from ≤ best.effective_from) rows
find_first-Sorted q [] best h found = cc
find_first-Sorted q (row ∷ rows) best h found = elim (Bool-cases (q row)) [
  | inl e ↦
      (let same : row ≡ best = ground arith in
        subst (λ b. All (λ y. q y ≡ true → y.effective_from ≤ b.effective_from) (row ∷ rows)) same
          ((λ _. omega arith), All-map rows (λ x x_le _. x_le) h.0))
  | inr e ↦ ((λ passes. absurd (cc)), find_first-Sorted q rows best h.1 (ground arith))
]

abbrev of_provider : ℕ → PricingRow → Bool
of_provider provider row = owned provider row.pricing_provider

abbrev price_in : Option PricingRow → Option ℤ
price_in none = none
price_in (some row) = some row.unit_price_minor

or_else-none : {A : Type 0} → (a : Option A) → or_else a none ≡ a
or_else-none none = refl
or_else-none (some x) = refl

or_else_assoc :
    {A : Type 0} → (a b c : Option A) → or_else (or_else a b) c ≡ or_else a (or_else b c)
or_else_assoc none b c = refl
or_else_assoc (some x) b c = refl

cost_at-add_cost :
    (costs : CostMap) (id : Option ℕ) (price : ℤ) (provider : ℕ)
    → cost_at (add_cost costs id price) provider
      ≡ or_else (cost_at costs provider) (if owned provider id then some price else none)
unfolding cost_at add_cost
cost_at-add_cost costs none price provider = sym (or_else-none (cost_at costs provider))
cost_at-add_cost costs (some id) price provider = elim (Bool-cases (id == provider)) [
  | inl same ↦ elim (Option-cases (cost_at costs provider)) [
    | inl missing ↦ ground arith
    | inr (known, found) ↦ ground arith
  ]
  | inr other ↦ elim (Option-cases (cost_at costs id)) [
    | inl missing ↦ ground (arith, or_else-none (cost_at costs provider))
    | inr (known, found) ↦ ground (arith, or_else-none (cost_at costs provider))
  ]
]

price_in-if :
    (b : Bool) (row : PricingRow) (rest : Option PricingRow)
    → or_else (if b then some row.unit_price_minor else none) (price_in rest)
      ≡ price_in (if b then some row else rest)
price_in-if true row rest = refl
price_in-if false row rest = refl

-- The loop keeps the first price of each provider.
cost_at-add_costs :
    (costs : CostMap) (rows : List PricingRow) (provider : ℕ)
    → cost_at (add_costs costs rows) provider
      ≡ or_else (cost_at costs provider) (price_in (find_first (of_provider provider) rows))
unfolding add_costs
cost_at-add_costs costs [] provider = sym (or_else-none (cost_at costs provider))
cost_at-add_costs costs (row ∷ rows) provider =
    let id = row.pricing_provider in
    let price = row.unit_price_minor in
    let rest = price_in (find_first (of_provider provider) rows) in
    cost_at-add_costs (add_cost costs id price) rows provider
    ∙ ap (λ c. or_else c rest) (cost_at-add_cost costs id price provider)
    ∙ or_else_assoc (cost_at costs provider) (if owned provider id then some price else none) rest
    ∙ ap (or_else (cost_at costs provider))
        (price_in-if (owned provider id) row (find_first (of_provider provider) rows))

and_false : (a b : Bool) → (a ≡ true → b ≡ false) → (a && b) ≡ false
and_false true b h = h refl
and_false false b h = refl

and_under : {P : Type 0} → (a b : Bool) → (a ≡ true → b ≡ true → P) → (a && b) ≡ true → P
and_under true b h both = h refl both
and_under false b h both = absurd (cc)

-- The rows of a provider that the query selects.
unfoldable pub is_unit_cost_of : ℕ → List ℕ → CountryCode → TrafficType → ℕ → PricingRow → Bool
is_unit_cost_of now ids country traffic provider row =
    is_unit_cost now ids country traffic row && of_provider provider row

kept_first :
    (now : ℕ) (rules : List PricingRow) (ids : List ℕ) (country : CountryCode)
    (traffic : TrafficType) (provider : ℕ)
    → cost_at (get_unit_costs now rules ids country traffic) provider
      ≡ price_in (
          find_first
            (of_provider provider)
            (newest_first (keep_rows (is_unit_cost now ids country traffic) rules)))
unfolding get_unit_costs cost_at
kept_first now rules ids country traffic provider =
    cost_at-add_costs [] (newest_first (keep_rows (is_unit_cost now ids country traffic) rules))
      provider

module _ (w q : PricingRow → Bool) (rules : List PricingRow) where
  all_fail :
      find_first q (newest_first (keep_rows w rules)) ≡ none
      → All (λ row. (w row && q row) ≡ false) rules
  all_fail gone =
      let rows = newest_first (keep_rows w rules) in
      let fails =
        All-from_newest_first (λ row. q row ≡ false) (keep_rows w rules)
          (find_first-none q rows gone) in
      All-map rules (λ row h. and_false (w row) (q row) h)
        (All-keep_rows_under (λ row. q row ≡ false) w rules fails)

  best-Newest :
      (best : PricingRow)
      → find_first q (newest_first (keep_rows w rules)) ≡ some best
      → Newest (λ row. w row && q row) rules best
  best-Newest best found =
      let kept = keep_rows w rules in
      let rows = newest_first kept in
      let older : PricingRow → Type 0 =
        λ row. (q row ≡ true → row.effective_from ≤ best.effective_from) in
      let w_best : w best ≡ true =
        All-find_first (λ row. w row ≡ true) q rows best
          (All-newest_first (λ row. w row ≡ true) kept (All-kept w rules)) found in
      let q_best : q best ≡ true = find_first_holds q rows best found in
      let none_newer =
        All-from_newest_first older kept
          (find_first-Sorted q rows best (newest_first-Sorted kept) found) in
      (
        ground arith,
        All-map rules (λ row h. and_under (w row) (q row) h)
            (All-keep_rows_under older w rules none_newer),
      )

-- `getUnitCosts` has no cost for a provider exactly if it is not among the providers asked for, or
-- no active cost rule of the provider fits the country, the traffic type and the time; otherwise it
-- has the price of a rule that fits, and no rule of the provider that fits came into effect later.
pub get_unit_costs-Newest :
    (now : ℕ) (rules : List PricingRow) (ids : List ℕ) (country : CountryCode)
    (traffic : TrafficType) (provider : ℕ)
    → (All (λ row. is_unit_cost_of now ids country traffic provider row ≡ false) rules
        × (cost_at (get_unit_costs now rules ids country traffic) provider ≡ none))
      ⊎ ((row : PricingRow) × Newest (is_unit_cost_of now ids country traffic provider) rules row
          × (cost_at (get_unit_costs now rules ids country traffic) provider
              ≡ some row.unit_price_minor))
unfolding is_unit_cost_of
get_unit_costs-Newest now rules ids country traffic provider =
    let w = is_unit_cost now ids country traffic in
    let q = of_provider provider in
    let cost = kept_first now rules ids country traffic provider in
    elim (Option-cases (find_first q (newest_first (keep_rows w rules)))) [
      | inl gone ↦ inl (all_fail w q rules gone, cost ∙ ap price_in gone)
      | inr (best, found) ↦ inr (best, best-Newest w q rules best found, cost ∙ ap price_in found)
    ]
