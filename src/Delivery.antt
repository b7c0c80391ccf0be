-- ===== src/Delivery.antt =====
-- The delivery queue: packages/core/src/backoff.ts, packages/db/src/deliveries.ts and the
-- processing in apps/server/src/worker/index.ts. `Types` has the rows, `Backoff` the waits,
-- `Claim` the claiming of due rows, `Process` what becomes of a claimed row.
pub mod Types
pub mod Backoff
pub mod Waits
pub mod Claim
pub mod Claiming
pub mod Ordering
pub mod Exclusion
pub mod Process
pub mod Settling
pub mod Attempts
pub mod Bounded
pub mod Runs
pub mod DestinationHealth
mod Tests
