-- ===== src/Routing/Select.antt =====
-- `selectRoute` of routing/routing.service.ts, for the rules, the unit costs and the providers'
-- metrics that it has read. A score is in ten-thousandths, an error rate in millionths, without
-- the rounding of floating point.
use sms_platform_backend.Base.{
  ℕ, ◌+◌, ◌*◌, ℤ, pos, ◌-ℤ◌, ltb_ℤ, Bool, true, false, not, ◌&&◌, ◌||◌, Option, none, some, List,
  [], ◌∷◌, ◌==◌, if◌then◌else◌, get_or, any_row, keep_rows, Result, ok, err, no_routing_rules,
  no_route_candidates,
}
use sms_platform_backend.Database.{TrafficType, otp, Protocol, http, smpp}
use sms_platform_backend.Circuit.Store.{CircuitState, opened, half_open}
use sms_platform_backend.Workflow.Services.{RouteDecision, RouteSelectionOptions, truthy}

pub record RoutingRuleRow : Type 0 where
  pub rule_id : ℕ
  pub rule_provider : ℕ
  pub rule_smpp_config : Option ℕ
  pub preferred_protocol : Option Protocol
  pub priority : ℕ
  pub weight : ℕ
  pub cost_rank : ℕ

-- The part of `getProviderMetrics` that the score reads.
pub record ProviderMetrics : Type 0 where
  pub circuit_state : CircuitState
  pub error_rate : ℕ
  pub latency_ms : ℕ

-- `includes`
abbrev pub includes : List ℕ → ℕ → Bool
includes xs x = any_row (λ y. y == x) xs

unfoldable pub is_eligible : RouteSelectionOptions → RoutingRuleRow → Bool
is_eligible options rule =
    not (includes options.excluded_provider_ids rule.rule_provider)
    && not (includes options.excluded_rule_ids rule.rule_id)

abbrev pub is_open_circuit : CircuitState → Bool
is_open_circuit opened = true
is_open_circuit _ = false

abbrev pub same_protocol : Protocol → Protocol → Bool
same_protocol http http = true
same_protocol smpp smpp = true
same_protocol _ _ = false

unfoldable pub protocol_of : RoutingRuleRow → Protocol
protocol_of rule =
    get_or rule.preferred_protocol
      (elim (truthy rule.rule_smpp_config) [ some config ↦ smpp | none ↦ http ])

abbrev pub traffic_boost : TrafficType → Protocol → ℕ
traffic_boost otp smpp = 10
traffic_boost traffic protocol = 0

abbrev pub protocol_boost : Option Protocol → Protocol → ℕ
protocol_boost none protocol = 0
protocol_boost (some preferred) protocol = if same_protocol preferred protocol then 5 else 0

abbrev pub health_penalty : CircuitState → ℕ → ℕ
health_penalty half_open error_rate = 2500000 + error_rate
health_penalty _ error_rate = error_rate

unfoldable pub score_of : TrafficType → RouteSelectionOptions → ProviderMetrics → RoutingRuleRow → ℤ
score_of traffic options metrics rule =
    pos (
      rule.priority * 50000
      + rule.cost_rank * 10000
      + metrics.latency_ms * 200
      + health_penalty metrics.circuit_state metrics.error_rate)
    -ℤ pos (
        rule.weight * 10000
        + traffic_boost traffic (protocol_of rule) * 10000
        + protocol_boost options.prefer_protocol (protocol_of rule) * 10000)

-- The first of the lowest score, as a stable sort puts it in front.
unfoldable pub lower : RouteDecision → Option RouteDecision → RouteDecision
lower d none = d
lower d (some best) = if ltb_ℤ best.score d.score then best else d

unfoldable pub lowest : List RouteDecision → Option RouteDecision
lowest [] = none
lowest (d ∷ ds) = some (lower d (lowest ds))

module _ (traffic : TrafficType) (options : RouteSelectionOptions) (metrics : ℕ → ProviderMetrics)
    (unit_costs : ℕ → Option ℤ) where
  unfoldable pub decision_of : RoutingRuleRow → RouteDecision
  decision_of rule = record {
    routing_rule = rule.rule_id;
    route_provider = rule.rule_provider;
    route_smpp_config = rule.rule_smpp_config;
    route_protocol = protocol_of rule;
    estimated_unit_cost_minor = get_or (unit_costs rule.rule_provider) (pos 0);
    score = score_of traffic options (metrics rule.rule_provider) rule;
  }

  -- A provider with an open circuit is no candidate, unless the caller asks for a probe.
  unfoldable pub may_dispatch : RoutingRuleRow → Bool
  may_dispatch rule =
      not (is_open_circuit (metrics rule.rule_provider).circuit_state)
      || options.allow_open_circuit_probe

  unfoldable pub candidates : List RoutingRuleRow → List RouteDecision
  candidates [] = []
  candidates (rule ∷ rules) =
      if may_dispatch rule then decision_of rule ∷ candidates rules else candidates rules

  unfoldable pub winner_of : Option RouteDecision → Result RouteDecision
  winner_of none = err no_route_candidates
  winner_of (some winner) = ok winner

  unfoldable pub select_among : List RoutingRuleRow → Result RouteDecision
  select_among [] = err no_routing_rules
  select_among (rule ∷ rules) = winner_of (lowest (candidates (rule ∷ rules)))

  -- `selectRoute`
  unfoldable pub select_route : List RoutingRuleRow → Result RouteDecision
  select_route rules = select_among (keep_rows (is_eligible options) rules)
