-- ===== src/Routing.antt =====
-- packages/core/src/routing.ts: which deliveries a submission gives rise to.
-- `Types` has the records, `Calendar` the civil dates, `Digest` the period of a digest route,
-- `Plan` the planner; the other children prove things of these.
pub mod Types
pub mod Calendar
pub mod DayNumber
pub mod Digest
pub mod Plan
pub mod Periods
pub mod Uniqueness
pub mod Outcomes
mod Tests
