-- ===== src/Schema.antt =====
-- packages/core/src/schema.ts: what data shows that its schema does not (`Drift`), and the cache of
-- compiled schemas (`Compile`).
pub mod Drift
pub mod Compile
mod NoFindings
pub mod Conformance
pub mod Cache
mod Tests
