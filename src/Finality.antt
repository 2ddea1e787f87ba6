-- ===== src/Finality.antt =====
-- finality-service.ts: when a transaction of a network counts as final.
pub mod Evaluation
pub mod Checks
pub mod Service
pub mod Satisfied
pub mod Kept
mod Tests
