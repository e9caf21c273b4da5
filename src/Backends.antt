-- ===== src/Backends.antt =====
-- src/alert2ir/backends: the backend lifecycle, routing, and the deterministic mock backend.
pub mod Base
pub mod Router
pub mod Mock
