-- ===== src/Leads.antt =====
-- src/modules/leads/leads.service.ts.
mod Service
unfoldable pub use Service.*
pub mod History
pub mod Converted
