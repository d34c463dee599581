-- ===== src/Core.antt =====
-- The core package: packages/core/src.
pub mod Security
pub mod Types
pub mod Policy
pub mod Rbac
pub mod Store
pub mod Outbox
pub mod Ingress
pub mod Identity
pub mod Memory
pub mod Access
pub mod Sessions
mod Tests
