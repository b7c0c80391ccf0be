-- ===== src/Members.antt =====
-- Organizations' members: apps/server/src/lib/scope.ts and lib/orgs.ts (`Roles`),
-- routes/v1/members.ts (`Changes`) and routes/v1/invitations.ts (`Invitations`).
pub mod Types
pub mod Roles
pub mod Changes
pub mod Invitations
pub mod Owners
pub mod Ownership
pub mod Departures
pub mod Pending
pub mod Used
pub mod Gate
mod Tests
