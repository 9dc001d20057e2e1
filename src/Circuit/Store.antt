-- ===== src/Circuit/Store.antt =====
-- The Redis commands that redis/circuit-breaker.service.ts uses, as an interface, and what the
-- service relies on: a key is there until its time to live is over.
use sms_platform_backend.Base.{ℕ, ◌+◌, ◌*◌, ◌≤◌, ◌<◌, ◌≡◌, Bool, Option, some, none}

pub data CircuitState : Type 0 where
  closed opened half_open : CircuitState

-- `CircuitSnapshot`; times are milliseconds.
pub record CircuitSnapshot : Type 0 where
  pub state : CircuitState
  pub failure_count : ℕ
  pub success_count : ℕ
  pub last_changed_at : ℕ
  pub next_probe_at : Option ℕ

-- The commands on the keys `circuit:provider:id` and `circuit:provider:id:probe`: GET, SET with EX,
-- SET with EX and NX, and DEL.
pub record Redis (R : Type 0) : Type 0 where
  pub get_snapshot : ℕ → ℕ → R → Option CircuitSnapshot
  pub set_snapshot : ℕ → CircuitSnapshot → ℕ → ℕ → R → R
  pub set_probe : ℕ → ℕ → ℕ → R → Bool × R
  pub delete_probe : ℕ → R → R

-- A snapshot set at `at` for `ttl` seconds is read before that time is over, and not after it.
pub record RedisExpires {R : Type 0} (redis : Redis R) : Type 0 where
  pub fresh :
      (provider : ℕ) (snapshot : CircuitSnapshot) (ttl at now : ℕ) (r : R)
      → at ≤ now
      → now < at + ttl * 1000
      → redis.get_snapshot provider now (redis.set_snapshot provider snapshot ttl at r)
        ≡ some snapshot
  pub expired :
      (provider : ℕ) (snapshot : CircuitSnapshot) (ttl at now : ℕ) (r : R)
      → at + ttl * 1000 ≤ now
      → redis.get_snapshot provider now (redis.set_snapshot provider snapshot ttl at r) ≡ none
