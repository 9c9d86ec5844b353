-- ===== src/Payments.antt =====
-- src/modules/payments/flex-booking-payments.service.ts: the online payment of the reservation of
-- a flex booking, through Mercado Pago.
mod Rows
mod Checkout
mod Notification
mod Webhook
pub mod Event
pub mod History
pub mod OpenPayment
pub mod Notified
unfoldable pub use Rows.*
unfoldable pub use Checkout.*
unfoldable pub use Notification.*
unfoldable pub use Webhook.*
