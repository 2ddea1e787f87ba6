-- ===== src/Network.antt =====
-- network-registry.ts: the networks that the program knows.
pub mod Registry
pub mod WellFormed
mod Tests
