-- ===== src/Credentials/Refinement.antt =====
-- The broker of packages/credentials/src/leases.ts, which marks a lease as expired when it next
-- looks at it, keeps the promises on leases whose status is a function of the time.
mod Reads
mod Changes
mod Renewals
pub mod Runs
