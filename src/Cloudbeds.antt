-- ===== src/Cloudbeds.antt =====
-- src/modules/cloudbeds: the search of free rooms with its cache and snapshots
-- (cloudbeds.service.ts, availability-cache.service.ts, availability-snapshots.service.ts), and the
-- reservations made at the booking engine (reservation-intents.service.ts).
mod Provider
mod Cache
mod Search
mod Intents
mod Confirm
mod Requests
pub mod Searches
pub mod Cached
pub mod Enriched
pub mod History
pub mod Life
pub mod Lives
pub mod Registered
unfoldable pub use Provider.*
unfoldable pub use Cache.*
unfoldable pub use Search.*
unfoldable pub use Intents.*
unfoldable pub use Confirm.*
unfoldable pub use Requests.*
