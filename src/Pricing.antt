-- ===== src/Pricing.antt =====
-- src/modules/property-flex/flex-pricing.service.ts: pricing plans and the quote of a flex stay.
mod Quote
mod Plans
mod Update
pub mod Choice
pub mod Synchronized
pub mod Updated
pub mod Amounts
unfoldable pub use Quote.*
unfoldable pub use Plans.*
unfoldable pub use Update.*
