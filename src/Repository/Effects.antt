-- ===== src/Repository/Effects.antt =====
-- Every operation of the repository makes one of the changes of `Repository/Change.antt`.
pub mod Progress
pub mod Failure
pub mod Acceptance
