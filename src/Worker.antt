-- ===== src/Worker.antt =====
-- The worker queue of packages/worker/src/index.ts.
pub mod Types
pub mod Attempts
pub mod State
pub mod Leases
pub mod Enqueue
pub mod Settle
pub mod Cancel
pub mod Approvals
pub mod Snapshots
pub mod Commands
pub mod Evolution
pub mod Runs
pub mod Safety
pub mod Behaviour
mod Samples
mod Tests
