-- ===== src/Idempotency.antt =====
-- idempotency.ts: claims on idempotency keys, and their store.
pub mod Canonical
pub mod Store
pub mod Writes
pub mod Held
pub mod Forever
mod Tests
mod RoundTrip
