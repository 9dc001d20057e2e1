-- ===== src/Circuit/Breaker.antt =====
-- The operations of redis/circuit-breaker.service.ts.
use Prim.Native.Nat.{max}
use sms_platform_backend.Base.{
  ℕ, ◌+◌, ◌-◌, ◌*◌, ◌/◌, Bool, true, false, Option, none, some, List, [], ◌∷◌, get_or, leb,
  if◌then◌else◌,
}
use sms_platform_backend.Circuit.Store.{
  CircuitState, closed, opened, half_open, CircuitSnapshot, Redis,
}

-- `circuitBreaker.*` of the configuration.
pub record CircuitConfig : Type 0 where
  pub failure_threshold : ℕ
  pub open_seconds : ℕ
  pub half_open_probe_seconds : ℕ

-- `defaultSnapshot`
unfoldable pub default_snapshot : ℕ → CircuitSnapshot
default_snapshot now = record {
  state = closed;
  failure_count = 0;
  success_count = 0;
  last_changed_at = now;
  next_probe_at = none;
}

-- `Math.max(1, Math.ceil((probe - now) / 1000))`
abbrev pub remaining_seconds : ℕ → ℕ → ℕ
remaining_seconds probe now = max 1 ((probe - now + 999) / 1000)

-- `calculateSnapshotTtlSeconds`
unfoldable pub calculate_ttl : CircuitConfig → ℕ → CircuitState → Option ℕ → ℕ
calculate_ttl config now closed probe = max config.open_seconds config.half_open_probe_seconds
calculate_ttl config now opened (some probe) = remaining_seconds probe now
calculate_ttl config now opened none = config.open_seconds
calculate_ttl config now half_open (some probe) = remaining_seconds probe now
calculate_ttl config now half_open none = config.half_open_probe_seconds

-- The state after a failure.
unfoldable pub state_after_failure : CircuitConfig → ℕ → CircuitState → CircuitState
state_after_failure config failures state =
    if leb config.failure_threshold failures then opened else state

abbrev pub probe_after_failure : CircuitConfig → ℕ → CircuitState → Option ℕ → Option ℕ
probe_after_failure config now opened probe = some (now + config.open_seconds * 1000)
probe_after_failure config now state probe = probe

unfoldable pub failed_snapshot : CircuitConfig → ℕ → CircuitSnapshot → CircuitSnapshot
unfolding state_after_failure
failed_snapshot config now snapshot =
    let failures = snapshot.failure_count + 1 in
    let next = state_after_failure config failures snapshot.state in
    record {
      state = next;
      failure_count = failures;
      success_count = 0;
      last_changed_at = now;
      next_probe_at = probe_after_failure config now next snapshot.next_probe_at;
    }

unfoldable pub succeeded_snapshot : ℕ → CircuitSnapshot
succeeded_snapshot now = record {
  state = closed;
  failure_count = 0;
  success_count = 1;
  last_changed_at = now;
  next_probe_at = none;
}

unfoldable pub probing_snapshot : CircuitConfig → ℕ → CircuitSnapshot → CircuitSnapshot
probing_snapshot config now snapshot = record snapshot {
  state = half_open;
  last_changed_at = now;
  next_probe_at = some (now + config.half_open_probe_seconds * 1000);
}

-- `state === 'open' && nextProbeAt && nextProbeAt <= now`
unfoldable pub probe_is_due : ℕ → CircuitState → Option ℕ → Bool
probe_is_due now opened (some probe) = leb probe now
probe_is_due now _ _ = false

module _ {R : Type 0} (redis : Redis R) (config : CircuitConfig) where
  -- `persistSnapshot`
  unfoldable pub persist_snapshot : ℕ → ℕ → CircuitSnapshot → R → R
  persist_snapshot provider now snapshot r =
      redis.set_snapshot provider snapshot
        (calculate_ttl config now snapshot.state snapshot.next_probe_at) now r

  -- `getSnapshot`
  unfoldable pub get_snapshot : ℕ → ℕ → R → CircuitSnapshot
  get_snapshot provider now r = get_or (redis.get_snapshot provider now r) (default_snapshot now)

  -- `registerFailure`
  unfoldable pub register_failure : ℕ → ℕ → R → CircuitSnapshot × R
  register_failure provider now r =
      let next = failed_snapshot config now (get_snapshot provider now r) in
      (next, persist_snapshot provider now next r)

  -- `registerSuccess`
  unfoldable pub register_success : ℕ → ℕ → R → CircuitSnapshot × R
  register_success provider now r =
      let next = succeeded_snapshot now in
      (next, redis.delete_probe provider (persist_snapshot provider now next r))

  -- The step to 'half_open', where the probe is due.
  unfoldable pub start_probe : ℕ → ℕ → CircuitSnapshot → R → R
  start_probe provider now snapshot r =
      if probe_is_due now snapshot.state snapshot.next_probe_at
      then persist_snapshot provider now (probing_snapshot config now snapshot) r
      else r

  unfoldable pub admit : ℕ → ℕ → CircuitState → R → Bool × R
  admit provider now closed r = (true, r)
  admit provider now opened r = (false, r)
  admit provider now half_open r = redis.set_probe provider config.half_open_probe_seconds now r

  unfoldable pub allow_for : ℕ → ℕ → CircuitSnapshot → R → Bool × R
  allow_for provider now snapshot r =
      let r' = start_probe provider now snapshot r in
      elim snapshot.state [
        | closed ↦ (true, r)
        | opened ↦ admit provider now (get_snapshot provider now r').state r'
        | half_open ↦ admit provider now (get_snapshot provider now r').state r'
      ]

  -- `allowDispatch`
  unfoldable pub allow_dispatch : ℕ → ℕ → R → Bool × R
  allow_dispatch provider now r = allow_for provider now (get_snapshot provider now r) r

  -- The snapshot of `setState`.
  unfoldable pub set_snapshot_of : ℕ → ℕ → CircuitState → CircuitSnapshot
  set_snapshot_of ttl now closed = record {
    state = closed;
    failure_count = 0;
    success_count = 1;
    last_changed_at = now;
    next_probe_at = none;
  }
  set_snapshot_of ttl now opened = record {
    state = opened;
    failure_count = 1;
    success_count = 0;
    last_changed_at = now;
    next_probe_at = some (now + ttl * 1000);
  }
  set_snapshot_of ttl now half_open = record {
    state = half_open;
    failure_count = 1;
    success_count = 0;
    last_changed_at = now;
    next_probe_at = none;
  }

  -- `setState`; without a time to live it is `openSeconds`.
  unfoldable pub set_state : ℕ → CircuitState → Option ℕ → ℕ → R → CircuitSnapshot × R
  unfolding set_snapshot_of
  set_state provider state ttl_seconds now r =
      let ttl = get_or ttl_seconds config.open_seconds in
      let next = set_snapshot_of ttl now state in
      (
        next,
        redis.set_snapshot provider next
            (max ttl (calculate_ttl config now next.state next.next_probe_at)) now r,
      )

  -- The key is as new as the row.
  abbrev pub is_newer : CircuitSnapshot → Option CircuitSnapshot → Bool
  is_newer row none = false
  is_newer row (some existing) = leb row.last_changed_at existing.last_changed_at

  -- `onModuleInit`, for the rows of `provider_circuit_state` of active providers.
  unfoldable pub warm_start : List (ℕ × CircuitSnapshot) → ℕ → R → R
  warm_start [] now r = r
  warm_start ((provider, row) ∷ rows) now r = warm_start rows now (
      if is_newer row (redis.get_snapshot provider now r)
      then r
      else persist_snapshot provider now row r)
