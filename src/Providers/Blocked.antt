-- ===== src/Providers/Blocked.antt =====
-- A provider whose circuit `recordDispatchResult` of providers/providers.service.ts has opened.
use sms_platform_backend.Base.{
  ℕ, ◌+◌, ◌*◌, ◌≤◌, ◌<◌, ◌≡◌, ap, false, Option, err, circuit_open_error,
}
use sms_platform_backend.Database.{Protocol, ErrorCode}
use sms_platform_backend.Circuit.Store.{Redis, RedisExpires}
use sms_platform_backend.Circuit.Breaker.{CircuitConfig, get_snapshot}
use sms_platform_backend.Circuit.Expiry.{failure_blocks}
use sms_platform_backend.Providers.{
  ProviderWorld, if_allowed, assert_provider_dispatch_allowed, persist_circuit_snapshot, log_result,
  record_dispatch_result,
}

-- If Redis keeps keys for exactly their time to live and circuits open for a second at least, then
-- after `recordDispatchResult` of a failure that reaches the threshold, and until `openSeconds`
-- later if nothing else is written, `assertProviderDispatchAllowed` throws the open circuit for the
-- provider and takes no token.
pub assert_blocked :
    {R : Type 0} (redis : Redis R) (laws : RedisExpires redis) (config : CircuitConfig)
    (provider at : ℕ) (w : ProviderWorld R) (protocol : Protocol) (code : Option ErrorCode)
    (smpp_config : Option ℕ) (max_global_tps now : ℕ)
    → config.failure_threshold
      ≤ (get_snapshot redis config provider at w.circuits).failure_count + 1
    → 1 ≤ config.open_seconds
    → at ≤ now
    → now < at + config.open_seconds * 1000
    → assert_provider_dispatch_allowed redis config provider max_global_tps now
        (record_dispatch_result redis config provider protocol false code smpp_config at w)
      ≡ (
        err circuit_open_error,
        record_dispatch_result redis config provider protocol false code smpp_config at w,
      )
unfolding assert_provider_dispatch_allowed if_allowed record_dispatch_result log_result
    persist_circuit_snapshot
assert_blocked redis laws config provider at w protocol code smpp_config max_global_tps now reached
      lasting since before =
    let after = record_dispatch_result redis config provider protocol false code smpp_config at w in
    ap (λ x. if_allowed redis config x provider max_global_tps now after)
      (failure_blocks redis laws config provider at w.circuits reached lasting now since before)
