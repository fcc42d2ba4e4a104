-- ===== src/Base.antt =====
-- The names that the other modules share: the libraries', passed on, and the helpers of the
-- children: Boolean tests, Go's signed integers, Go's maps, Go's text functions and slices.
mod Tests
mod Names
pub mod Int
pub mod Map
pub mod Text
pub mod Slice
pub use Names.*
pub use Tests.*
