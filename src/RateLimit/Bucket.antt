-- ===== src/RateLimit/Bucket.antt =====
-- The script TOKEN_BUCKET_LUA, `consumeTokens` and `enforceLimit` of redis/rate-limit.service.ts. The
-- script computes with fractions of tokens; tokens are counted in parts of one refill period, so
-- that refilling adds whole parts.
use Prim.Native.Nat.{min}
use sms_platform_backend.Base.{
  ℕ, ◌+◌, ◌-◌, ◌*◌, Bool, true, false, ◌||◌, Option, none, some, ltb, leb, ◌==◌, if◌then◌else◌,
  Result, ok, err, rate_limited, bad_bucket,
}

-- The hash under a key: `tokens` in parts, and `updated_at`.
pub record TokenBucket : Type 0 where
  pub tokens : ℕ
  pub updated_at : ℕ

pub record BucketConfig : Type 0 where
  pub capacity : ℕ
  pub refill_tokens : ℕ
  pub refill_period_ms : ℕ

unfoldable pub full_parts : BucketConfig → ℕ
full_parts config = config.capacity * config.refill_period_ms

-- The tokens after the refill.
unfoldable pub refilled : BucketConfig → ℕ → Option TokenBucket → ℕ
unfolding full_parts
refilled config now none = full_parts config
refilled config now (some bucket) =
    if ltb bucket.updated_at now
    then min (full_parts config) (bucket.tokens + (now - bucket.updated_at) * config.refill_tokens)
    else bucket.tokens

-- The script: whether the tokens are granted, and the hash that it writes.
unfoldable pub token_bucket : BucketConfig → ℕ → ℕ → Option TokenBucket → Bool × TokenBucket
unfolding refilled
token_bucket config now requested bucket =
    let tokens = refilled config now bucket in
    let cost = requested * config.refill_period_ms in
    if leb cost tokens
    then (true, record { tokens = tokens - cost; updated_at = now })
    else (false, record { tokens = tokens; updated_at = now })

abbrev pub granted_or_limited : Bool × TokenBucket → Result (Unit {0}) × Option TokenBucket
granted_or_limited (true, bucket) = (ok tt, some bucket)
granted_or_limited (false, bucket) = (err rate_limited, some bucket)

-- `consumeTokens` with the exception of `enforceLimit` and `enforceDailyQuota`.
unfoldable pub consume_tokens :
    BucketConfig → ℕ → ℕ → Option TokenBucket → Result (Unit {0}) × Option TokenBucket
unfolding token_bucket
consume_tokens config amount now bucket =
    if config.capacity == 0 || config.refill_tokens == 0 || config.refill_period_ms == 0
    then (err bad_bucket, bucket)
    else granted_or_limited (token_bucket config now amount bucket)

-- `enforceLimit`
unfoldable pub enforce_limit :
    ℕ → ℕ → ℕ → ℕ → Option TokenBucket → Result (Unit {0}) × Option TokenBucket
unfolding consume_tokens
enforce_limit limit ttl_seconds amount now =
    consume_tokens
      (record { capacity = limit; refill_tokens = limit; refill_period_ms = ttl_seconds * 1000 })
      amount now

-- `enforceDailyQuota`
unfoldable pub enforce_daily_quota :
    ℕ → ℕ → Option TokenBucket → Result (Unit {0}) × Option TokenBucket
unfolding consume_tokens
enforce_daily_quota limit now =
    consume_tokens (record { capacity = limit; refill_tokens = limit; refill_period_ms = 86400000 })
      1 now
