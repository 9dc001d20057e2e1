-- ===== src/Routing/Retry.antt =====
-- `getRetryPolicy` of routing/routing.service.ts: the most specific policy that fits, or the default.
use sms_platform_backend.Base.{
  ℕ, ◌+◌, ◌≡◌, refl, sym, ap, subst, Bool, true, false, ◌&&◌, ◌||◌, ◌==◌, ltb, Option, none, some,
  List, [], ◌∷◌, if◌then◌else◌, keep_rows, All, All-map, All-keep_rows_under, All-kept,
  Option-cases, arith, Bool-cases, inl, inr, ◌⊎◌,
}
use sms_platform_backend.Database.{
  TrafficType, timeout, throttle, http_provider_error, smpp_throttle,
}
use sms_platform_backend.Submission.Pricing.{same_traffic}
use sms_platform_backend.Workflow.Services.{RetryPolicy}

-- A row of `retry_policies`.
pub record RetryPolicyRow : Type 0 where
  pub policy_tenant : Option ℕ
  pub policy_provider : Option ℕ
  pub policy_traffic : Option TrafficType
  pub policy_active : Bool
  pub policy_updated_at : ℕ
  pub policy : RetryPolicy

abbrev pub id_or_null : ℕ → Option ℕ → Bool
id_or_null id none = true
id_or_null id (some i) = i == id

-- `$3 IS NULL OR traffic_type = $3 OR traffic_type IS NULL`
abbrev pub traffic_or_null : Option TrafficType → Option TrafficType → Bool
traffic_or_null none traffic = true
traffic_or_null (some asked) none = true
traffic_or_null (some asked) (some traffic) = same_traffic traffic asked

-- The WHERE clause.
unfoldable pub policy_fits : ℕ → ℕ → Option TrafficType → RetryPolicyRow → Bool
policy_fits tenant provider traffic row =
    id_or_null tenant row.policy_tenant
    && (id_or_null provider row.policy_provider
        && (traffic_or_null traffic row.policy_traffic && row.policy_active))

abbrev pub weight_if {ℓ} : {A : Type ℓ} → Option A → ℕ → ℕ
weight_if none n = 0
weight_if (some x) n = n

-- The first three keys of the ORDER BY. Rows that fit have the tenant and the provider that were
-- asked for, or none, so that these two columns only tell whether they are NULL.
unfoldable pub specificity : RetryPolicyRow → ℕ
specificity row =
    weight_if row.policy_traffic 4 + weight_if row.policy_tenant 2 + weight_if row.policy_provider 1

-- Later in the order.
unfoldable pub is_behind : RetryPolicyRow → RetryPolicyRow → Bool
is_behind a b =
    ltb (specificity a) (specificity b)
    || (specificity a == specificity b && ltb a.policy_updated_at b.policy_updated_at)

unfoldable pub preferred : RetryPolicyRow → Option RetryPolicyRow → RetryPolicyRow
preferred row none = row
preferred row (some best) = if is_behind row best then best else row

-- `ORDER BY ... LIMIT 1`
unfoldable pub first_policy : List RetryPolicyRow → Option RetryPolicyRow
unfolding preferred
first_policy [] = none
first_policy (row ∷ rows) = some (preferred row (first_policy rows))

abbrev pub default_policy : RetryPolicy
default_policy = record {
  max_attempts = 3;
  retry_intervals = 5 ∷ 30 ∷ 300 ∷ [];
  retry_on_errors = timeout ∷ throttle ∷ http_provider_error ∷ smpp_throttle ∷ [];
}

abbrev pub policy_or_default : Option RetryPolicyRow → RetryPolicy
policy_or_default none = default_policy
policy_or_default (some row) = row.policy

-- `getRetryPolicy`
unfoldable pub get_retry_policy : List RetryPolicyRow → ℕ → ℕ → Option TrafficType → RetryPolicy
unfolding first_policy policy_fits
get_retry_policy rows tenant provider traffic =
    policy_or_default (first_policy (keep_rows (policy_fits tenant provider traffic) rows))

not_behind_self : (a : RetryPolicyRow) → is_behind a a ≡ false
unfolding is_behind
not_behind_self a = ground arith

not_behind_trans :
    (a b c : RetryPolicyRow) → is_behind a b ≡ false → is_behind b c ≡ false → is_behind a c ≡ false
unfolding is_behind
not_behind_trans a b c h k = ground arith

behind_not_ahead : (a b : RetryPolicyRow) → is_behind a b ≡ true → is_behind b a ≡ false
unfolding is_behind
behind_not_ahead a b h = ground arith

abbrev Leads : (RetryPolicyRow → Type 0) → RetryPolicyRow → List RetryPolicyRow → Type 0
Leads P best rows = P best × All (λ row. is_behind best row ≡ false) rows

no_policy : (rows : List RetryPolicyRow) → first_policy rows ≡ none → rows ≡ []
unfolding first_policy
no_policy [] h = refl
no_policy (row ∷ rows) h = cc

-- No row of the list comes before the first one.
first_policy-Leads :
    (P : RetryPolicyRow → Type 0) (rows : List RetryPolicyRow) (best : RetryPolicyRow)
    → All P rows
    → first_policy rows ≡ some best
    → Leads P best rows
unfolding first_policy preferred
first_policy-Leads P [] best all h = cc
first_policy-Leads P (row ∷ rows) best all h = elim (Option-cases (first_policy rows)) [
  | inl gone ↦
      (let same : row ≡ best = ground arith in
        subst (λ b. Leads P b (row ∷ rows)) same
          (
            all.0,
            (
              not_behind_self row,
              subst (λ rs. All (λ r. is_behind row r ≡ false) rs) (sym (no_policy rows gone)) tt,
            ),
          ))
  | inr (b, found) ↦
      (let (fits, leads) = first_policy-Leads P rows b all.1 found in
        elim (Bool-cases (is_behind row b)) [
          | inl behind ↦
              (let same : b ≡ best = ground arith in
                subst (λ x. Leads P x (row ∷ rows)) same
                  (fits, (behind_not_ahead row b behind, leads)))
          | inr ahead ↦
              (let same : row ≡ best = ground arith in
                subst (λ x. Leads P x (row ∷ rows)) same
                  (
                    all.0,
                    (
                      not_behind_self row,
                      All-map rows (λ r r_le. not_behind_trans row b r ahead r_le) leads,
                    ),
                  ))
        ])
]

-- The policy is that of a row that fits and that no row that fits comes before, or, if no row fits,
-- the default.
pub get_retry_policy-Leads :
    (rows : List RetryPolicyRow) (tenant provider : ℕ) (traffic : Option TrafficType)
    → ((keep_rows (policy_fits tenant provider traffic) rows ≡ [])
        × (get_retry_policy rows tenant provider traffic ≡ default_policy))
      ⊎ ((best : RetryPolicyRow) × (policy_fits tenant provider traffic best ≡ true)
          × All
              (λ row. policy_fits tenant provider traffic row ≡ true → is_behind best row ≡ false)
              rows
          × (get_retry_policy rows tenant provider traffic ≡ best.policy))
unfolding get_retry_policy
get_retry_policy-Leads rows tenant provider traffic =
    let fits = policy_fits tenant provider traffic in
    let kept = keep_rows fits rows in
    elim (Option-cases (first_policy kept)) [
      | inl gone ↦ inl (no_policy kept gone, ap policy_or_default gone)
      | inr (best, found) ↦
          (let (best_fits, leads) =
              first_policy-Leads (λ row. fits row ≡ true) kept best (All-kept fits rows) found in
            inr (
              best,
              best_fits,
              All-keep_rows_under (λ row. is_behind best row ≡ false) fits rows leads,
              ap policy_or_default found,
            ))
    ]
