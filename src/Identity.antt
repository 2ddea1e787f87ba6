-- ===== src/Identity.antt =====
-- identity-registry.ts: identities, the challenges for their addresses, and the bindings.
pub mod Challenges
pub mod Registry
pub mod Counting
pub mod Leads
pub mod Exclusive
pub mod Calls
pub mod Series
mod Tests
