-- ===== src/Bundle.antt =====
-- Execution bundles: internal/executionbundle.
pub mod Types
pub mod Paths
pub mod Codec
pub mod Normalize
pub mod Verify
pub mod Assemble
pub mod Sound
pub mod Store
pub mod Kept
