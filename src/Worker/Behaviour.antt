-- ===== src/Worker/Behaviour.antt =====
-- What the operations of the worker queue do, branch by branch: packages/worker/src/index.ts.
pub mod Expiring
pub mod Beating
pub mod Claiming
pub mod Failing
pub mod Enqueueing
pub mod Cancelling
pub mod Resuming
pub mod Requeueing
