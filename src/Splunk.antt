-- ===== src/Splunk.antt =====
-- src/alert2ir/adapters/splunk: the gateway between Splunk and the API.
pub mod Auth
pub mod Client
pub mod App
pub mod Models
pub mod Mapping
