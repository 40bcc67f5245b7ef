-- ===== src/State.antt =====
-- The management state: internal/managementstate.
pub mod Types
pub mod Db
pub mod Connection
pub mod Transaction
pub mod Atomic
pub mod Observed
pub mod Statements
pub mod Guards
pub mod Change
pub mod Sources
pub mod Store
pub mod Migrate
pub mod Migrations
pub mod Invariant
pub mod Secrets
