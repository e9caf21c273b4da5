-- ===== src/Tests.antt =====
-- Tests on concrete inputs: the repository, the processor, the gateway, the alert action and the API.
pub mod Data
mod Histories
mod Calls
mod Runs
mod Gateway
mod Delivery
mod Api
mod Execution
