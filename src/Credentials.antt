-- ===== src/Credentials.antt =====
-- Leases of credentials: packages/credentials/src.
pub mod Types
pub mod Audit
pub mod Broker
pub mod Grants
pub mod Promises
pub mod Represents
pub mod Lookups
pub mod Refinement
pub mod Health
mod Tests
