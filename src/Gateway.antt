-- ===== src/Gateway.antt =====
-- The target gateway: internal/targetgateway.
pub mod Types
pub mod Session
pub mod Trust
pub mod Inspect
pub mod Operate
pub mod Storage
pub mod Guarded
pub mod Trusted
pub mod Ensured
pub mod Hardened
pub mod Enrolled
pub mod Bounds
pub mod Stream
pub mod Shell
pub mod Facts
pub mod HostKeys
pub mod Selected
