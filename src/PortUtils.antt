-- ===== src/PortUtils.antt =====
-- src/port_utils.rs and src/config.rs: when a port is assigned automatically, and which one.
pub mod Auto
pub mod Find
pub mod FindLaws
