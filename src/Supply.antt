-- ===== src/Supply.antt =====
-- supply-invariants.ts: the ledger of supply effects of one asset and representation.
pub mod Assess
pub mod Store
pub mod Totals
pub mod Backing
mod Tests
