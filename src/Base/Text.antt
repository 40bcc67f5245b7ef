-- ===== src/Base/Text.antt =====
-- Go strings as bytes, with the operations of the package `strings` that the program calls.
mod Defs
mod Laws
pub mod Last
pub mod Lengths
unfoldable pub use Defs.*
pub use Laws.*
