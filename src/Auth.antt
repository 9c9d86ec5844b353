-- ===== src/Auth.antt =====
-- src/modules/auth: the sessions of refresh tokens (token.service.ts) and the accounts
-- (auth.service.ts).
mod Tokens
mod Service
mod Requests
pub mod Refused
pub mod Reset
pub mod Enrolment
pub mod Reuse
pub mod Spent
unfoldable pub use Tokens.*
unfoldable pub use Service.*
unfoldable pub use Requests.*
