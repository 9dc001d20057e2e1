-- ===== src/Routing/Winner.antt =====
-- The winner of `selectRoute` of routing/routing.service.ts.
use sms_platform_backend.Base.{
  ℕ, zero, suc, get_elem?, ℤ, ◌≤ℤ◌, ltb_ℤ, int_laws, ◌≡◌, refl, sym, subst, ap, ◌∙◌, inl, inr, Bool,
  true, false, Option, none, some, List, [], ◌∷◌, if◌then◌else◌, keep_rows, All, All-map, arith,
  Bool-cases, ok,
}
use sms_platform_backend.Database.{TrafficType}
use sms_platform_backend.Workflow.Services.{RouteDecision, RouteSelectionOptions}
use sms_platform_backend.Routing.Select.{
  RoutingRuleRow, ProviderMetrics, is_eligible, lower, lowest, decision_of, may_dispatch,
  candidates, winner_of, select_among, select_route,
}

abbrev pub Member : RoutingRuleRow → List RoutingRuleRow → Type 0
Member rule rules = (i : ℕ) × (get_elem? rules i ≡ some rule)

module _ (traffic : TrafficType) (options : RouteSelectionOptions) (metrics : ℕ → ProviderMetrics)
    (unit_costs : ℕ → Option ℤ) where
  -- The decision is that of a rule that may be used, and no other such rule has a lower score.
  abbrev pub Wins : List RoutingRuleRow → RouteDecision → Type 0
  Wins rules d =
      ((rule : RoutingRuleRow) × Member rule rules
        × (is_eligible options rule ≡ true)
        × (may_dispatch traffic options metrics unit_costs rule ≡ true)
        × (d ≡ decision_of traffic options metrics unit_costs rule))
      × All
          (λ rule.
            is_eligible options rule ≡ true
            → may_dispatch traffic options metrics unit_costs rule ≡ true
            → d.score ≤ℤ (decision_of traffic options metrics unit_costs rule).score)
          rules

  -- The same for the rules that passed the filter.
  abbrev Best : List RoutingRuleRow → RouteDecision → Type 0
  Best rules d =
      ((rule : RoutingRuleRow) × Member rule rules
        × (is_eligible options rule ≡ true)
        × (may_dispatch traffic options metrics unit_costs rule ≡ true)
        × (d ≡ decision_of traffic options metrics unit_costs rule))
      × All
          (λ rule.
            may_dispatch traffic options metrics unit_costs rule ≡ true
            → d.score ≤ℤ (decision_of traffic options metrics unit_costs rule).score)
          rules

  none_may :
      (rules : List RoutingRuleRow)
      → lowest (candidates traffic options metrics unit_costs rules) ≡ none
      → All (λ rule. may_dispatch traffic options metrics unit_costs rule ≡ false) rules
  unfolding lowest candidates
  none_may [] h = tt
  none_may (rule ∷ rules) h =
      elim (Bool-cases (may_dispatch traffic options metrics unit_costs rule)) [
        | inl e ↦ ground arith
        | inr e ↦ (e, none_may rules (ground arith))
      ]

  first_wins :
      (rule : RoutingRuleRow) (rules : List RoutingRuleRow) (d : RouteDecision)
      (o : Option RouteDecision)
      → is_eligible options rule ≡ true
      → may_dispatch traffic options metrics unit_costs rule ≡ true
      → lowest (candidates traffic options metrics unit_costs rules) ≡ o
      → ((best : RouteDecision) → o ≡ some best → Best rules best)
      → lower (decision_of traffic options metrics unit_costs rule) o ≡ d
      → Best (rule ∷ rules) d
  unfolding lower
  first_wins rule rules d none el e gone rec h = subst (Best (rule ∷ rules)) h (
    (rule, (0, refl), el, e, refl),
    (λ _. omega int_laws, All-map rules (λ x no_x yes_x. absurd (cc)) (none_may rules gone)),
  )
  first_wins rule rules d (some best) el e found rec h =
      let (witness, least) = rec best refl in
      elim (Bool-cases
        (ltb_ℤ best.score (decision_of traffic options metrics unit_costs rule).score)) [
          | inl less ↦
              (let q : best ≡ d = ground arith in
                let (r, (i, at), el', e', same_d) = witness in
                subst (Best (rule ∷ rules)) q
                  ((r, (suc i, at), el', e', same_d), (λ _. ground arith, least)))
          | inr more ↦
              (let q : decision_of traffic options metrics unit_costs rule ≡ d = ground arith in
                let not_more : (decision_of traffic options metrics unit_costs rule).score
                    ≤ℤ best.score =
                  ground arith in
                subst (Best (rule ∷ rules)) q (
                  (rule, (0, refl), el, e, refl),
                  (
                    λ _. omega int_laws,
                    All-map rules (λ x le m. omega (arith, le m, not_more)) least,
                  ),
                ))
        ]

  lowest-Best :
      (rules : List RoutingRuleRow) (d : RouteDecision)
      → All (λ rule. is_eligible options rule ≡ true) rules
      → lowest (candidates traffic options metrics unit_costs rules) ≡ some d
      → Best rules d
  unfolding lowest candidates
  lowest-Best [] d all h = cc
  lowest-Best (rule ∷ rules) d all h =
      elim (Bool-cases (may_dispatch traffic options metrics unit_costs rule)) [
        | inl e ↦
            first_wins rule rules d (lowest (candidates traffic options metrics unit_costs rules))
              all.0 e refl (λ best q. lowest-Best rules best all.1 q) (ground arith)
        | inr e ↦
            (let ((r, (i, at), el, e', same_d), least) = lowest-Best rules d all.1 (ground arith) in
              ((r, (suc i, at), el, e', same_d), (λ m. absurd (cc), least)))
      ]

  passes_kept :
      (p : RoutingRuleRow → Bool) (rules : List RoutingRuleRow)
      → All (λ r. p r ≡ true) (keep_rows p rules)
  passes_kept p [] = tt
  passes_kept p (r ∷ rs) = elim (Bool-cases (p r)) [
    | inl e ↦ rw e (e, passes_kept p rs)
    | inr e ↦ rw e (passes_kept p rs)
  ]

  back_from_kept :
      (Q : RoutingRuleRow → Type 0) (p : RoutingRuleRow → Bool) (rules : List RoutingRuleRow)
      → All Q (keep_rows p rules)
      → All (λ r. p r ≡ true → Q r) rules
  back_from_kept Q p [] h = tt
  back_from_kept Q p (r ∷ rs) h = go (p r) refl (λ rest. back_from_kept Q p rs rest) h
    where
      go :
          (b : Bool)
          → p r ≡ b
          → (All Q (keep_rows p rs) → All (λ x. p x ≡ true → Q x) rs)
          → All Q (if b then r ∷ keep_rows p rs else keep_rows p rs)
          → (p r ≡ true → Q r) × All (λ x. p x ≡ true → Q x) rs
      go true e rec h = (λ _. h.0, rec h.1)
      go false e rec h = (λ yes_r. absurd (cc), rec h)

  Member-kept :
      (p : RoutingRuleRow → Bool) (r : RoutingRuleRow) (rules : List RoutingRuleRow)
      → Member r (keep_rows p rules)
      → Member r rules
  Member-kept p r [] m = m
  Member-kept p r (x ∷ xs) (i, at) = elim (Bool-cases (p x)) [
    | inl e ↦
        under i
          (sym (ap (λ b. get_elem? (if b then x ∷ keep_rows p xs else keep_rows p xs) i) e) ∙ at)
          (λ j. Member-kept p r xs j)
    | inr e ↦
        (let (j, there) = Member-kept p r xs (
          i,
          sym (ap (λ b. get_elem? (if b then x ∷ keep_rows p xs else keep_rows p xs) i) e) ∙ at,
        ) in
          (suc j, there))
  ]
    where
      under :
          (i : ℕ)
          → get_elem? (x ∷ keep_rows p xs) i ≡ some r
          → (Member r (keep_rows p xs) → Member r xs)
          → Member r (x ∷ xs)
      under zero at rec = (0, at)
      under (suc i) at rec = let (j, there) = rec (i, at) in (suc j, there)

  among-Best :
      (kept : List RoutingRuleRow) (d : RouteDecision)
      → All (λ rule. is_eligible options rule ≡ true) kept
      → select_among traffic options metrics unit_costs kept ≡ ok d
      → Best kept d
  unfolding select_among winner_of
  among-Best [] d all h = cc
  among-Best (rule ∷ rules) d all h =
      lowest-Best (rule ∷ rules) d all
        (found (lowest (candidates traffic options metrics unit_costs (rule ∷ rules))) h)
    where
      found :
          (o : Option RouteDecision)
          → winner_of traffic options metrics unit_costs o ≡ ok d
          → o ≡ some d
      found none h = cc
      found (some x) h = ground arith

  -- If `selectRoute` returns a route, it is that of one of the rules, which is not excluded and
  -- whose provider's circuit is not open unless the caller asks for a probe, and no such rule of
  -- the list has a lower score.
  pub select_route-Wins :
      (rules : List RoutingRuleRow) (d : RouteDecision)
      → select_route traffic options metrics unit_costs rules ≡ ok d
      → Wins rules d
  unfolding select_route
  select_route-Wins rules d h =
      let ((rule, here, eligible, may, same_d), least) =
        among-Best (keep_rows (is_eligible options) rules) d
          (passes_kept (is_eligible options) rules) h in
      (
        (rule, Member-kept (is_eligible options) rule rules here, eligible, may, same_d),
        back_from_kept
            (λ rule.
              may_dispatch traffic options metrics unit_costs rule ≡ true
              → d.score ≤ℤ (decision_of traffic options metrics unit_costs rule).score)
            (is_eligible options) rules least,
      )
