-- ===== src/Saga.antt =====
-- cross-network-settlement.ts: the saga that settles two legs on two networks without atomicity.
pub mod States
pub mod Checks
pub mod Store
pub mod Service
pub mod Graph
pub mod History
pub mod Progress
pub mod Outcomes
pub mod Rounds
pub mod Termination
mod Irreversible
mod Tables
mod Refinement
mod Agreements
mod Stores
mod Tests
