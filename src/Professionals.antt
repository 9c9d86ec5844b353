-- ===== src/Professionals.antt =====
-- src/modules/professionals: the approval of ambassadors (professionals.service.ts) and the teams of
-- agencies (agency-team.service.ts).
mod Team
mod Approval
mod Request
pub mod Distinct
pub mod Approved
pub mod ShutOut
pub mod Suspended
unfoldable pub use Team.*
unfoldable pub use Approval.*
unfoldable pub use Request.*
