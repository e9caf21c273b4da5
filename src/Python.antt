-- ===== src/Python.antt =====
-- What the source uses of Python: exceptions, datetimes, texts, dicts, and mutable state.
pub mod Result
pub mod DateTime
pub mod Text
pub mod Optional
pub mod Dict
pub mod Action
pub mod Decimal
pub mod Json
pub mod Pattern
pub mod Library
