-- ===== src/Policy.antt =====
-- policy-engine.ts: versioned policies, their registry, and the engine that evaluates them.
pub mod Definition
pub mod Engine
pub mod Precedence
pub mod Registry
pub mod Active
mod Tests
