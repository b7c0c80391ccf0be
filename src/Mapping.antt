-- ===== src/Mapping.antt =====
-- packages/core/src/mapping.ts: how the fields of a submission become the payload of a stream.
pub mod Apply
pub mod Validate
pub mod Payload
mod Tests
