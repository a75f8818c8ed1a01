-- ===== src/Go.antt =====
-- What the program uses of Go's language and standard library: error values and effects.
mod Errors
mod Effects
mod Inversion
pub mod Preserves
pub mod Strings
pub mod Slices
unfoldable pub use Errors.*
unfoldable pub use Effects.*
pub use Inversion.*
unfoldable pub use Strings.{leb, is_upper, to_lower}
unfoldable pub use Slices.{sort, compact}
