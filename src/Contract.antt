-- ===== src/Contract.antt =====
-- The module contract: internal/modulecontract.
pub mod Types
pub mod Patterns
pub mod Errors
pub mod Validate
pub mod Integration
pub mod Actions
pub mod Compile
pub mod Valid
