-- ===== src/Repository.antt =====
-- src/alert2ir/persistence/memory.py: the in-memory repository of durable processings.
pub mod Store
pub mod Acceptance
pub mod Plans
pub mod Progress
pub mod Failure
pub mod Reconcilable
pub mod Rules
pub mod Call
pub mod Change
pub mod Invariant
pub mod Preservation
pub mod Effects
pub mod Histories
pub mod Lifecycle
pub mod Claims
pub mod Replays
pub mod Window
