-- ===== src/Deployment.antt =====
-- The deployment compiler: internal/deployment.
pub mod Types
pub mod Graph
pub mod Subnets
pub mod Owners
pub mod Links
pub mod Validation
pub mod Claims
pub mod Plan
pub mod Diff
pub mod Freeze
pub mod Compile
pub mod Collisions
pub mod Plans
