-- ===== src/Tests/RateLimitTests.antt =====
-- A token bucket on concrete inputs.
use sms_platform_backend.Base.{◌+◌, ◌*◌, ◌≤◌, List, [], ◌∷◌, arith}
use sms_platform_backend.RateLimit.Bucket.{TokenBucket, BucketConfig, full_parts}
use sms_platform_backend.RateLimit.Grants.{TokenRequest, granted, granted-bound}

-- Two tokens a second.
abbrev config : BucketConfig
config = record { capacity = 2; refill_tokens = 2; refill_period_ms = 1000 }

abbrev full : TokenBucket
full = record { tokens = 2000; updated_at = 0 }

abbrev requests : List TokenRequest
requests =
    record { wait = 0; requested = 2 }
    ∷ record { wait = 100; requested = 1 }
    ∷ record { wait = 500; requested = 1 }
    ∷ []

granted-bound_example : granted config full requests * 1000 ≤ 2 * 1000 + 600 * 2
unfolding full_parts
granted-bound_example = granted-bound config full requests (omega arith)
