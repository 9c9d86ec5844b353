-- ===== src/Settlements.antt =====
-- src/modules/commissions/commission-settlements.service.ts: approved commissions are gathered into
-- settlements, one for each ambassador, which are then paid or cancelled.
mod Service
mod Preview
pub mod Totals
pub mod Settled
pub mod Closed
unfoldable pub use Service.*
unfoldable pub use Preview.*
