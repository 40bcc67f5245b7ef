-- ===== src/Execution.antt =====
-- Execution of a bundle on a target: internal/execution.
pub mod Types
pub mod Env
pub mod Secrets
pub mod Executor
pub mod Loop
pub mod Safety
pub mod Reconcile
pub mod Delivered
