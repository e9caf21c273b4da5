-- ===== src/Application.antt =====
-- src/alert2ir/application: planning, the durable records, and alert processing.
pub mod Orchestrator
pub mod States
pub mod Record
pub mod Attempt
pub mod RecordFacts
pub mod Fingerprint
