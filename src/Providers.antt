-- ===== src/Providers.antt =====
-- providers/providers.service.ts: the profiles, the admission of a dispatch and the record of its
-- result, over the circuit breaker and the rate limits. Latencies, the health's history and the
-- metrics are left out.
pub mod Blocked
use sms_platform_backend.Base.{
  ℕ, Bool, true, false, ◌&&◌, Option, none, some, List, [], ◌∷◌, ◌++◌, ◌==◌, if◌then◌else◌,
  find_first, update_first, any_row, Result, ok, err, provider_not_found, smpp_config_not_found,
  circuit_open_error, Error, not,
}
use sms_platform_backend.Database.{Protocol, ErrorCode, throttle, smpp_throttle, provider_throttled}
use sms_platform_backend.Circuit.Store.{
  CircuitState, closed, opened, half_open, CircuitSnapshot, Redis,
}
use sms_platform_backend.Circuit.Breaker.{
  CircuitConfig, allow_dispatch, register_success, register_failure, set_state,
}
use sms_platform_backend.RateLimit.Bucket.{TokenBucket, enforce_limit}

-- `providers`, as far as a dispatch reads it.
pub record ProviderRow : Type 0 where
  pub provider_row_id : ℕ
  pub protocol_by_default : Protocol
  pub http_base_url : Option ℕ
  pub global_tps : ℕ

-- `smpp_configs`
pub record SmppConfigRow : Type 0 where
  pub config_id : ℕ
  pub config_provider : ℕ
  pub config_endpoint : ℕ
  pub max_sessions : ℕ
  pub session_tps : ℕ
  pub config_active : Bool

-- `provider_circuit_state`
pub record CircuitRow : Type 0 where
  pub circuit_provider : ℕ
  pub circuit : CircuitSnapshot

-- `provider_health_logs`
pub record HealthRow : Type 0 where
  pub health_provider : ℕ
  pub health_config : Option ℕ
  pub health_protocol : Protocol
  pub is_healthy : Bool
  pub error_rate : ℕ
  pub success_tps : ℕ
  pub throttle_count : ℕ

-- The tables, with Redis as it is for the circuits, and the bucket of each provider.
pub record ProviderWorld (R : Type 0) : Type 0 where
  pub providers : List ProviderRow
  pub smpp_configs : List SmppConfigRow
  pub provider_circuit_state : List CircuitRow
  pub provider_health_logs : List HealthRow
  pub circuits : R
  pub global_buckets : ℕ → Option TokenBucket

abbrev pub or_error {ℓ} : {A : Type ℓ} → Option A → Error → Result A
or_error none e = err e
or_error (some a) e = ok a

-- `getProvider`
unfoldable pub get_provider : {R : Type 0} → ℕ → ProviderWorld R → Result ProviderRow
get_provider provider w =
    or_error (find_first (λ p. p.provider_row_id == provider) w.providers) provider_not_found

-- `getSmppConfig`
unfoldable pub get_smpp_config : {R : Type 0} → ℕ → ProviderWorld R → Result SmppConfigRow
get_smpp_config config w =
    or_error (find_first (λ c. c.config_id == config && c.config_active) w.smpp_configs)
      smpp_config_not_found

-- INSERT .. ON CONFLICT (provider_id) DO UPDATE
unfoldable pub upsert_circuit : ℕ → CircuitSnapshot → List CircuitRow → List CircuitRow
upsert_circuit provider snapshot rows =
    let has : CircuitRow → Bool = λ row. row.circuit_provider == provider in
    if any_row has rows
    then update_first has (λ row. record row { circuit = snapshot }) rows
    else rows ++ record { circuit_provider = provider; circuit = snapshot } ∷ []

-- `persistCircuitSnapshot`
unfoldable pub persist_circuit_snapshot :
    {R : Type 0} → ℕ → CircuitSnapshot → ProviderWorld R → ProviderWorld R
unfolding upsert_circuit
persist_circuit_snapshot provider snapshot w = record w {
  provider_circuit_state = upsert_circuit provider snapshot w.provider_circuit_state;
}

abbrev pub is_closed : CircuitState → Bool
is_closed closed = true
is_closed _ = false

-- `errorCode.includes('throttle')`
abbrev pub names_throttle : Option ErrorCode → Bool
names_throttle (some throttle) = true
names_throttle (some smpp_throttle) = true
names_throttle (some provider_throttled) = true
names_throttle (some ErrorCode.fraud_throttled) = true
names_throttle _ = false

abbrev pub count_of : Bool → ℕ
count_of b = if b then 1 else 0

module _ {R : Type 0} (redis : Redis R) (config : CircuitConfig) where
  -- `enforceLimit` on the key of the provider.
  unfoldable pub take_global : ℕ → ℕ → ℕ → ProviderWorld R → Result (Unit {0}) × ProviderWorld R
  take_global provider max_global_tps now w =
      let (r, bucket) = enforce_limit max_global_tps 1 1 now (w.global_buckets provider) in
      (r, record w { global_buckets = λ p. if p == provider then bucket else w.global_buckets p })

  unfoldable pub if_allowed :
      Bool × R → ℕ → ℕ → ℕ → ProviderWorld R → Result (Unit {0}) × ProviderWorld R
  unfolding take_global
  if_allowed (false, r) provider max_global_tps now w =
      (err circuit_open_error, record w { circuits = r })
  if_allowed (true, r) provider max_global_tps now w =
      take_global provider max_global_tps now (record w { circuits = r })

  -- `assertProviderDispatchAllowed`
  unfoldable pub assert_provider_dispatch_allowed :
      ℕ → ℕ → ℕ → ProviderWorld R → Result (Unit {0}) × ProviderWorld R
  unfolding if_allowed
  assert_provider_dispatch_allowed provider max_global_tps now w =
      if_allowed (allow_dispatch redis config provider now w.circuits) provider max_global_tps now w

  -- The two tables after a result.
  unfoldable pub log_result :
      CircuitSnapshot × R
      → ℕ
      → Protocol
      → Bool
      → Option ErrorCode
      → Option ℕ
      → ProviderWorld R
      → ProviderWorld R
  unfolding persist_circuit_snapshot
  log_result (snapshot, r) provider protocol accepted code smpp_config w =
      record (persist_circuit_snapshot provider snapshot w) {
        circuits = r;
        provider_health_logs =
            w.provider_health_logs
            ++ record {
              health_provider = provider;
              health_config = smpp_config;
              health_protocol = protocol;
              is_healthy = is_closed snapshot.state;
              error_rate = count_of (not accepted);
              success_tps = count_of accepted;
              throttle_count = count_of (names_throttle code);
            }
              ∷ [];
      }

  -- `recordDispatchResult`
  unfoldable pub record_dispatch_result :
      ℕ → Protocol → Bool → Option ErrorCode → Option ℕ → ℕ → ProviderWorld R → ProviderWorld R
  unfolding log_result
  record_dispatch_result provider protocol accepted code smpp_config now w =
      log_result
        (if accepted
          then register_success redis config provider now w.circuits
          else register_failure redis config provider now w.circuits)
        provider protocol accepted code smpp_config w

  abbrev pub circuit_set : CircuitSnapshot × R → ℕ → ProviderWorld R → ProviderWorld R
  circuit_set (snapshot, r) provider w = record (persist_circuit_snapshot provider snapshot w) {
    circuits = r;
  }

  -- `setCircuitState`
  unfoldable pub set_circuit_state : ℕ → CircuitState → ℕ → ProviderWorld R → ProviderWorld R
  set_circuit_state provider state now w =
      circuit_set (set_state redis config provider state none now w.circuits) provider w
