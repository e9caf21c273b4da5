-- ===== src/Processing/Keeps.antt =====
-- Every method of the processor keeps the invariant of the world.
pub mod Operations
pub mod Polling
pub mod Claiming
pub mod Submission
pub mod Acceptance
pub mod Reconciliation
