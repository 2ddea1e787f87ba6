-- ===== src/Transaction.antt =====
-- transaction-engine.ts: the lifecycle of a bridge operation, its durable store, and the engine
-- that guards the store.
pub mod States
pub mod Paths
pub mod Store
pub mod Engine
pub mod Tables
pub mod History
pub mod Consistency
pub mod Appending
pub mod Accepted
pub mod Sound
pub mod Durability
pub mod Audit
pub mod Retry
pub mod Progress
pub mod Visited
mod Tests
