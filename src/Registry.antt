-- ===== src/Registry.antt =====
-- internal/registry: references of images, and their digests.
pub mod Reference
pub mod Challenge
pub mod Oci
pub mod Printed
pub mod Digests
pub mod Rounds
