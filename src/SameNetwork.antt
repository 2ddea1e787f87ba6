-- ===== src/SameNetwork.antt =====
-- same-network-settlement.ts: two legs that one native transaction of a network settles.
pub mod Settlement
pub mod Store
pub mod Service
pub mod Kept
pub mod Agreement
pub mod Decisions
pub mod Ends
mod Tests
