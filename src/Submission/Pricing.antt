-- ===== src/Submission/Pricing.antt =====
-- `getSellUnitPriceMinor` of messages/messages.service.ts: the newest active rule that fits.
use sms_platform_backend.Base.{
  ℕ, ◌≤◌, ℤ, pos, ◌≡◌, ap, subst, Bool, true, false, ◌&&◌, Option, none, some, List, [], ◌∷◌, ◌==◌,
  leb, ltb, if◌then◌else◌, keep_rows, All, All-map, Option-cases, arith, Bool-cases, inl, inr, ◌⊎◌,
}
use sms_platform_backend.Database.{TrafficType}
use sms_platform_backend.Submission.Content.{CountryCode}

pub data PricingKind : Type 0 where
  sell provider_cost : PricingKind

-- A row of `pricing_rules`.
pub record PricingRow : Type 0 where
  pub pricing_kind : PricingKind
  pub pricing_tenant : Option ℕ
  pub pricing_provider : Option ℕ
  pub pricing_country : CountryCode
  pub pricing_traffic : TrafficType
  pub parts_from : ℕ
  pub parts_to : ℕ
  pub is_active : Bool
  pub effective_from : ℕ
  pub effective_to : Option ℕ
  pub unit_price_minor : ℤ

abbrev pub is_sell : PricingKind → Bool
is_sell sell = true
is_sell provider_cost = false

abbrev pub same_country : CountryCode → CountryCode → Bool
same_country CountryCode.et CountryCode.et = true
same_country CountryCode.intl CountryCode.intl = true
same_country _ _ = false

abbrev pub same_traffic : TrafficType → TrafficType → Bool
same_traffic TrafficType.transactional TrafficType.transactional = true
same_traffic TrafficType.otp TrafficType.otp = true
same_traffic TrafficType.marketing TrafficType.marketing = true
same_traffic _ _ = false

abbrev pub owned : ℕ → Option ℕ → Bool
owned t none = false
owned t (some u) = u == t

-- `effective_to IS NULL OR effective_to > now()`
abbrev pub still_effective : ℕ → Option ℕ → Bool
still_effective now none = true
still_effective now (some end) = ltb now end

-- The WHERE clause.
unfoldable pub sells : ℕ → ℕ → CountryCode → TrafficType → ℕ → PricingRow → Bool
sells now tenant country traffic parts row =
    is_sell row.pricing_kind
    && (owned tenant row.pricing_tenant
        && (same_country row.pricing_country country
            && (same_traffic row.pricing_traffic traffic
                && (leb row.parts_from parts
                    && (leb parts row.parts_to
                        && (row.is_active && still_effective now row.effective_to))))))

-- `ORDER BY effective_from DESC LIMIT 1`
unfoldable pub newer : PricingRow → Option PricingRow → PricingRow
newer row none = row
newer row (some best) = if ltb row.effective_from best.effective_from then best else row

unfoldable pub newest : List PricingRow → Option PricingRow
unfolding newer
newest [] = none
newest (row ∷ rows) = some (newer row (newest rows))

abbrev pub price_of : Option PricingRow → ℤ
price_of none = pos 0
price_of (some row) = row.unit_price_minor

-- `getSellUnitPriceMinor`
unfoldable pub sell_unit_price_minor : ℕ → List PricingRow → ℕ → CountryCode → TrafficType → ℕ → ℤ
unfolding newest sells
sell_unit_price_minor now rules tenant country traffic parts =
    price_of (newest (keep_rows (sells now tenant country traffic parts) rules))

-- `row` is one of the rows that pass the test, and none of those is newer.
abbrev pub Newest : (PricingRow → Bool) → List PricingRow → PricingRow → Type 0
Newest p rows row =
    (p row ≡ true) × All (λ other. p other ≡ true → other.effective_from ≤ row.effective_from) rows

none_pass :
    (p : PricingRow → Bool) (rows : List PricingRow)
    → newest (keep_rows p rows) ≡ none
    → All (λ row. p row ≡ false) rows
unfolding newest
none_pass p [] h = tt
none_pass p (row ∷ rows) h = elim (Bool-cases (p row)) [
  | inl e ↦ ground arith
  | inr e ↦ (e, none_pass p rows (ground arith))
]

newest_of :
    (p : PricingRow → Bool) (rows : List PricingRow) (best : PricingRow)
    → newest (keep_rows p rows) ≡ some best
    → Newest p rows best
unfolding newest newer
newest_of p [] best h = cc
newest_of p (row ∷ rows) best h = elim (Bool-cases (p row)) [
  | inr e ↦
      (let (passes, rest) = newest_of p rows best (ground arith) in
        (passes, (λ q. absurd (cc), rest)))
  | inl e ↦ elim (Option-cases (newest (keep_rows p rows))) [
    | inl gone ↦
        (let q : row ≡ best = ground arith in
          subst (Newest p (row ∷ rows)) q (
            e,
            (
              λ _. omega arith,
              All-map rows (λ x x_fails x_passes. absurd (cc)) (none_pass p rows gone),
            ),
          ))
    | inr (b, found) ↦
        (let (passes, rest) = newest_of p rows b found in
          elim (Bool-cases (ltb row.effective_from b.effective_from)) [
            | inl older ↦
                (let q : b ≡ best = ground arith in
                  subst (Newest p (row ∷ rows)) q (passes, (λ _. ground arith, rest)))
            | inr newer_row ↦
                (let q : row ≡ best = ground arith in
                  subst (Newest p (row ∷ rows)) q
                    (e, (λ _. omega arith, All-map rows (λ x le px. ground (arith, le px)) rest)))
          ])
  ]
]

-- The unit price is 0 if no pricing rule fits the tenant, the country, the traffic type, the number
-- of parts and the time; otherwise it is that of a rule that fits, and no rule that fits came into
-- effect later.
pub sell_unit_price_minor-Newest :
    (now : ℕ) (rules : List PricingRow) (tenant : ℕ) (country : CountryCode) (traffic : TrafficType)
    (parts : ℕ)
    → (All (λ row. sells now tenant country traffic parts row ≡ false) rules
        × (sell_unit_price_minor now rules tenant country traffic parts ≡ pos 0))
      ⊎ ((row : PricingRow) × Newest (sells now tenant country traffic parts) rules row
          × (sell_unit_price_minor now rules tenant country traffic parts ≡ row.unit_price_minor))
unfolding sell_unit_price_minor
sell_unit_price_minor-Newest now rules tenant country traffic parts =
    let p = sells now tenant country traffic parts in
    elim (Option-cases (newest (keep_rows p rules))) [
      | inl gone ↦ inl (none_pass p rules gone, ap price_of gone)
      | inr (row, found) ↦ inr (row, newest_of p rules row found, ap price_of found)
    ]
