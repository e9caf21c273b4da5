-- ===== src/Api.antt =====
-- src/alert2ir/api: the HTTP boundary of the API.
pub mod Schemas
pub mod Responses
pub mod App
pub mod Relayed
