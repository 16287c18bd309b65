-- ===== src/Prelude/Text.antt =====
-- Go strings and byte slices as lists of bytes, with the functions of Go's `strings` and `bytes`
-- packages that the program calls.
mod Equality
mod Space
mod Search
pub mod Trim
unfoldable pub use Equality.*
unfoldable pub use Space.*
unfoldable pub use Search.*
