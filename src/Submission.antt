-- ===== src/Submission.antt =====
-- How a submission is taken in: packages/core/src/submission.ts (ArrayKeys, Normalize).
pub mod ArrayKeys
pub mod Normalize
pub mod Depth
pub mod Trimmed
pub mod Kept
pub mod Bounds
mod Tests
