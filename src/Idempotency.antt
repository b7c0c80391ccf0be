-- ===== src/Idempotency.antt =====
-- apps/server/src/middleware/idempotency.ts and lib/idempotency.ts: stored answers of `POST` requests.
pub mod Middleware
pub mod Replay
mod Tests
