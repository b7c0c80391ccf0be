-- ===== src/RateLimit.antt =====
-- apps/server/src/lib/rateLimit.ts: the token buckets in memory (`Buckets`), and what they bound.
pub mod Buckets
pub mod Levels
pub mod Bound
mod Tests
