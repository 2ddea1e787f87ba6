-- ===== src/LockMint.antt =====
-- lock-mint-coordinator.ts: the coordinator that locks on Canton and mints on an EVM network.
pub mod Evidence
pub mod Coordinator
pub mod Steps
pub mod Moves
pub mod Stages
pub mod Rounds
pub mod Termination
pub mod Runs
mod Tests
