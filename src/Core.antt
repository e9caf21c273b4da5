-- ===== src/Core.antt =====
-- src/alert2ir/core: the vendor-neutral domain.
pub mod Models
pub mod Workflow
