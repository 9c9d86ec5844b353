-- ===== src/Ambassadors.antt =====
-- src/modules/ambassadors/ambassadors.service.ts: the notice of a reservation that a guest made at the
-- booking engine in an ambassador's session.
mod Notice
pub mod History
pub mod Trusted
unfoldable pub use Notice.*
