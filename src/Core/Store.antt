-- ===== src/Core/Store.antt =====
-- The store of the control plane: packages/core/src/store.ts.
pub mod Types
pub mod Payloads
pub mod Settings
pub mod Approvals
pub mod Creation
pub mod Decisions
pub mod Once
mod Tests
