-- ===== src/Models.antt =====
-- src/models.rs: the requests of the API, what they configure, and the status of a stream.
pub mod Requests
pub mod Updates
pub mod Addresses
pub mod InputConfig
pub mod Inputs
pub mod OutputConfig
pub mod Outputs
pub mod Status
pub mod Analysis
pub mod PortLaws
