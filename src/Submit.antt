-- ===== src/Submit.antt =====
-- apps/server/src/routes/submit.ts: the handler of a form's submissions.
pub mod Types
pub mod Verdict
pub mod Requests
pub mod Store
pub mod Uploads
pub mod Post
pub mod Rows
pub mod Unmoved
pub mod Kept
pub mod Receipts
pub mod Once
pub mod Decision
pub mod Delivered
pub mod Returns
mod Tests
