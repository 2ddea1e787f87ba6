-- ===== src/Attestation.antt =====
-- attestation-protocol.ts and threshold-attestation.ts: what validators sign, and how many have to.
pub mod Protocol
pub mod ValidatorSets
pub mod Aggregator
mod Lists
mod Achievable
mod Intervals
mod Counts
mod Signed
mod Tests
