-- ===== src/FlexBookings.antt =====
-- src/modules/flex-bookings/flex-bookings.service.ts: flex reservations, each with its row in the
-- registry of bookings and its commission.
mod Create
mod Confirm
mod Update
pub mod History
pub mod UpdateHistory
pub mod Availability
unfoldable pub use Create.*
unfoldable pub use Confirm.*
unfoldable pub use Update.*
