-- ===== src/Rates.antt =====
-- src/modules/commissions/commission-rates.service.ts: the rate of a commission, its amount, and
-- the commissions that a change of a rate recalculates.
pub mod Pending
pub mod Cascade
mod Resolve
mod Recalculate
mod Overrides
unfoldable pub use Resolve.*
unfoldable pub use Recalculate.*
unfoldable pub use Overrides.*
