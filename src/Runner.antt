-- ===== src/Runner.antt =====
-- internal/targetrunner: the script that runs on the target.
pub mod Secrets
pub mod Delivered
