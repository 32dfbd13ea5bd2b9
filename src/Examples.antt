-- ===== src/Examples.antt =====
-- Each theorem at an input of the program, and tests of the definitions.
pub mod Requests
pub mod Endpoints
pub mod Calls
pub mod Models
pub mod Clients
pub mod Addresses
pub mod Cases
pub mod Replies
pub mod Limits
pub mod Logs
pub mod Caches
pub mod Runs
pub mod Setup
pub mod Doors
