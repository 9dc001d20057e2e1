-- ===== src/RateLimit/Grants.antt =====
-- How much a bucket of redis/rate-limit.service.ts grants over time.
use sms_platform_backend.Base.{
  ℕ, ◌+◌, ◌*◌, ◌≤◌, ◌≡◌, refl, Option, none, some, List, [], ◌∷◌, if◌then◌else◌, arith,
}
use sms_platform_backend.RateLimit.Bucket.{
  TokenBucket, BucketConfig, full_parts, refilled, token_bucket,
}

-- A request: the time since the one before it, and the tokens that it asks for.
pub record TokenRequest : Type 0 where
  pub wait : ℕ
  pub requested : ℕ

-- The tokens that are granted to requests in turn.
unfoldable pub granted : BucketConfig → TokenBucket → List TokenRequest → ℕ
granted config bucket [] = 0
granted config bucket (r ∷ rs) =
    let (allowed, after) =
      token_bucket config (bucket.updated_at + r.wait) r.requested (some bucket) in
    (if allowed then r.requested else 0) + granted config after rs

abbrev pub total_wait : List TokenRequest → ℕ
total_wait [] = 0
total_wait (r ∷ rs) = r.wait + total_wait rs

module _ (config : BucketConfig) where
  refill_bound :
      (bucket : TokenBucket) (wait : ℕ)
      → refilled config (bucket.updated_at + wait) (some bucket)
        ≤ bucket.tokens + wait * config.refill_tokens
  unfolding refilled
  refill_bound bucket wait = grind arith

  -- One request.
  step_bound :
      (bucket : TokenBucket) (r : TokenRequest)
      → (let (allowed, after) =
            token_bucket config (bucket.updated_at + r.wait) r.requested (some bucket) in
          (if allowed then r.requested else 0) * config.refill_period_ms + after.tokens
          ≤ bucket.tokens + r.wait * config.refill_tokens)
  unfolding token_bucket
  step_bound bucket r = ground (arith, refill_bound bucket r.wait)

  -- Two bounds in a row.
  chain :
      (p f t u v w g h : ℕ)
      → g * p + u ≤ t + w * f
      → h * p ≤ u + v * f
      → (g + h) * p ≤ t + (w + v) * f
  chain p f t u v w g h a b = grind (arith, a, b)

  granted_within :
      (bucket : TokenBucket) (rs : List TokenRequest)
      → granted config bucket rs * config.refill_period_ms
        ≤ bucket.tokens + total_wait rs * config.refill_tokens
  unfolding granted
  granted_within bucket [] = omega arith
  granted_within bucket (r ∷ rs) =
      let (allowed, after) =
        token_bucket config (bucket.updated_at + r.wait) r.requested (some bucket) in
      chain config.refill_period_ms config.refill_tokens bucket.tokens after.tokens (total_wait rs)
        r.wait (if allowed then r.requested else 0) (granted config after rs) (step_bound bucket r)
        (granted_within after rs)

  -- The tokens that a bucket grants to requests in turn, at times that do not go back, are at most
  -- its capacity plus what is refilled in the time from its last update to the last request, if it
  -- starts with at most its capacity.
  pub granted-bound :
      (bucket : TokenBucket) (rs : List TokenRequest)
      → bucket.tokens ≤ full_parts config
      → granted config bucket rs * config.refill_period_ms
        ≤ config.capacity * config.refill_period_ms + total_wait rs * config.refill_tokens
  unfolding full_parts
  granted-bound bucket rs h = omega (arith, h, granted_within bucket rs)

  -- If the bucket is missing or holds at most its capacity, it holds at most its capacity after any
  -- request at any time.
  pub token_bucket-bound :
      (now requested : ℕ) (bucket : Option TokenBucket)
      → ((b : TokenBucket) → bucket ≡ some b → b.tokens ≤ full_parts config)
      → (token_bucket config now requested bucket).1.tokens ≤ full_parts config
  unfolding token_bucket refilled
  token_bucket-bound now requested none h = ground arith
  token_bucket-bound now requested (some b) h =
      let below : b.tokens ≤ full_parts config = h b refl in ground (arith, below)
