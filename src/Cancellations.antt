-- ===== src/Cancellations.antt =====
-- src/modules/bookings/booking-cancellation-requests.service.ts: an ambassador asks for the
-- cancellation of a booking, and an administrator approves or rejects it.
mod Service
pub mod OnePending
unfoldable pub use Service.*
