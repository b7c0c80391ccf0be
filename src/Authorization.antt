-- ===== src/Authorization.antt =====
-- packages/auth/src/scopes.ts and apps/server/src/middleware/requireOrg.ts: what a request may do.
pub mod Scopes
pub mod RequireOrg
pub mod Granted
pub mod Requests
mod Tests
