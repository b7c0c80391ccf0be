-- ===== src/Plan.antt =====
-- Plans of organizations: apps/server/src/lib/plan.ts and planUsage.ts (`Limits`), the grants of
-- apps/server/src/routes/v1/plan.ts and planGrants.ts (`Grants`), the expiry of
-- apps/server/src/worker/housekeeping.ts (`Expiry`) and apps/server/src/worker/billing.ts (`Billing`
-- and `BillingQueue`).
pub mod Types
pub mod Limits
pub mod Grants
pub mod Expiry
pub mod Billing
pub mod BillingOrder
pub mod Redemptions
pub mod Races
pub mod Sweeps
pub mod BillingQueue
pub mod Retries
pub mod Spared
mod Tests
