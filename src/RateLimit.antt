-- ===== src/RateLimit.antt =====
-- redis/rate-limit.service.ts: the token buckets.
pub mod Bucket
pub mod Grants
