-- ===== src/Sandbox.antt =====
-- packages/db/src/anonymousSandboxes.ts: the staging rows of anonymous quickstarts. `Store` has the
-- operations, each one transaction; the other children prove things of these.
pub mod Store
pub mod Quota
pub mod Replay
pub mod Capacity
mod Tests
