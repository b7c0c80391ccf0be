-- ===== src/Core.antt =====
-- The smaller modules of packages/core: src/email.ts (`Mailbox`), src/ids.ts (`Identifiers`) and
-- src/signing.ts (`Signing`); the other children prove things of these.
pub mod Mailbox
pub mod Identifiers
pub mod FreshIds
pub mod Signing
pub mod ConstantTime
pub mod Signatures
pub mod Addresses
mod Tests
