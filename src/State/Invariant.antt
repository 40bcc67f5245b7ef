-- ===== src/State/Invariant.antt =====
-- What holds of the tables of internal/managementstate at every moment, and why each call keeps it.
pub mod Defs
pub mod Tables
pub mod Targets
pub mod Calls
pub mod Rows
pub mod Kept
pub mod History
pub mod Always
