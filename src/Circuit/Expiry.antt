-- ===== src/Circuit/Expiry.antt =====
-- An open circuit of redis/circuit-breaker.service.ts over time.
use Prim.Native.Nat.{max}
use sms_platform_backend.Base.{
  ℕ, ◌+◌, ◌-◌, ◌*◌, ◌/◌, ◌≤◌, ◌<◌, ◌≡◌, refl, sym, subst, ap, true, false, none, some, get_or,
  arith,
}
use sms_platform_backend.Circuit.Store.{opened, CircuitSnapshot, Redis, RedisExpires}
use sms_platform_backend.Circuit.Breaker.{
  CircuitConfig, default_snapshot, calculate_ttl, state_after_failure, failed_snapshot,
  probe_is_due, persist_snapshot, get_snapshot, register_failure, start_probe, admit, allow_for,
  allow_dispatch,
}

module _ {R : Type 0} (redis : Redis R) (laws : RedisExpires redis) (config : CircuitConfig)
    (provider at : ℕ) (r : R)
    (reached : config.failure_threshold
      ≤ (get_snapshot redis config provider at r).failure_count + 1)
    (lasting : 1 ≤ config.open_seconds) where
  next : CircuitSnapshot
  next = failed_snapshot config at (get_snapshot redis config provider at r)

  opens : (next.state ≡ opened) × (next.next_probe_at ≡ some (at + config.open_seconds * 1000))
  unfolding next failed_snapshot state_after_failure
  opens = ground arith

  -- The time to live ends when the probe is due.
  whole_seconds : (s : ℕ) → 1 ≤ s → max 1 ((at + s * 1000 - at + 999) / 1000) ≡ s
  whole_seconds s h = omega (arith, h)

  ttl_of_open : calculate_ttl config at next.state next.next_probe_at ≡ config.open_seconds
  unfolding calculate_ttl
  ttl_of_open = rw (opens.0, opens.1) (whole_seconds config.open_seconds lasting)

  stored :
      (register_failure redis config provider at r).1
      ≡ redis.set_snapshot provider next config.open_seconds at r
  unfolding register_failure persist_snapshot next
  stored = ap (λ ttl. redis.set_snapshot provider next ttl at r) ttl_of_open

  allowed_again :
      (now : ℕ) (r' : R)
      → redis.get_snapshot provider now r' ≡ none
      → allow_dispatch redis config provider now r' ≡ (true, r')
  unfolding allow_dispatch get_snapshot default_snapshot allow_for
  allowed_again now r' e =
      ap (λ o. allow_for redis config provider now (get_or o (default_snapshot now)) r') e

  not_due :
      (now : ℕ) (s : CircuitSnapshot) (probe : ℕ)
      → s.state ≡ opened
      → s.next_probe_at ≡ some probe
      → now < probe
      → probe_is_due now s.state s.next_probe_at ≡ false
  unfolding probe_is_due
  not_due now s probe o p before = rw (o, p) (ground (arith, before))

  not_started :
      (now : ℕ) (s : CircuitSnapshot) (r' : R)
      → probe_is_due now s.state s.next_probe_at ≡ false
      → start_probe redis config provider now s r' ≡ r'
  unfolding start_probe
  not_started now s r' d = rw d refl

  refused :
      (now : ℕ) (r' : R) (s : CircuitSnapshot)
      → get_snapshot redis config provider now r' ≡ s
      → s.state ≡ opened
      → probe_is_due now s.state s.next_probe_at ≡ false
      → allow_dispatch redis config provider now r' ≡ (false, r')
  unfolding allow_dispatch allow_for admit
  refused now r' s e o d = rw (e, allow_for, o, e, not_started now s r' d, e, o, admit)

  -- If Redis keeps keys for exactly their time to live, a failure that reaches the threshold, at a
  -- time `at`, makes `allowDispatch` refuse every dispatch until `openSeconds` later, if nothing
  -- else is written.
  pub failure_blocks :
      (now : ℕ)
      → at ≤ now
      → now < at + config.open_seconds * 1000
      → allow_dispatch redis config provider now (register_failure redis config provider at r).1
        ≡ (false, (register_failure redis config provider at r).1)
  unfolding get_snapshot
  failure_blocks now since before =
      subst (λ x. allow_dispatch redis config provider now x ≡ (false, x)) (sym stored)
        (refused now (redis.set_snapshot provider next config.open_seconds at r) next
          (ap (λ o. get_or o (default_snapshot now))
            (laws.fresh provider next config.open_seconds at now r since before))
          opens.0 (not_due now next (at + config.open_seconds * 1000) opens.0 opens.1 before))

  -- If Redis keeps keys for exactly their time to live and nothing else is written, then from
  -- `openSeconds` after a failure that reaches the threshold, `allowDispatch` admits every dispatch
  -- and writes nothing, so that no probe is taken first.
  pub failure_expires :
      (now : ℕ)
      → at + config.open_seconds * 1000 ≤ now
      → allow_dispatch redis config provider now (register_failure redis config provider at r).1
        ≡ (true, (register_failure redis config provider at r).1)
  failure_expires now over =
      subst (λ x. allow_dispatch redis config provider now x ≡ (true, x)) (sym stored)
        (allowed_again now (redis.set_snapshot provider next config.open_seconds at r)
          (laws.expired provider next config.open_seconds at now r over))
