-- ===== src/Processing.antt =====
-- src/alert2ir/application/processing.py: durable, idempotent processing and reconciliation.
pub mod World
pub mod Collected
pub mod Polling
pub mod Submission
pub mod Reconciliation
pub mod Acceptance
pub mod Invariant
pub mod Rules
pub mod Keeps
pub mod Submissions
pub mod Idempotency
pub mod Bounds
