-- ===== src/Bookings.antt =====
-- src/modules/bookings/bookings.service.ts: the registry of bookings and the life of a booking.
mod Service
pub mod Rules
pub mod Added
pub mod History
pub mod Cancelled
unfoldable pub use Service.*
