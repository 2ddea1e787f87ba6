-- ===== src/Asset.antt =====
-- asset-registry.ts: assets, their representations on networks, and their capabilities.
pub mod Registry
pub mod Agreement
pub mod Calls
mod Tests
