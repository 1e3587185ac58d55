-- ===== src/Operations.antt =====
-- semi_intel/operations: the scheduler, its leases and its job runs.
pub mod Lease
pub mod Runs
pub mod Clock
pub mod Cycle
pub mod Automation
mod Tests
