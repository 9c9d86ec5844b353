-- ===== src/Store.antt =====
-- The database and the methods that work on it.
mod Status
mod Rows
mod People
mod Availability
mod Monad
mod Tables
pub mod Hoare
pub mod Invariant
unfoldable pub use Status.*
unfoldable pub use Rows.*
unfoldable pub use People.*
unfoldable pub use Availability.*
unfoldable pub use Monad.*
unfoldable pub use Tables.*
