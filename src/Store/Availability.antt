-- ===== src/Store/Availability.antt =====
-- What the booking engine answers about free rooms, and where src/modules/cloudbeds keeps its
-- answers: the process's cache and the table `AvailabilitySnapshot` of prisma/schema.prisma.
use deptoflex_back.Prelude.{List, Option, String, ℕ}

-- `AvailableRoom`; a room type, a rate and an external property are only compared.
pub record AvailableRoom : Type 0 where
  pub room_type_id : ℕ
  pub rate_id : Option ℕ
  pub remaining : ℕ
  pub total_amount : Option ℕ

pub record AvailabilityResult : Type 0 where
  pub property_external_id : ℕ
  pub total_available : ℕ
  pub rooms : List AvailableRoom
  pub http_status : ℕ

-- The parts that `buildKey` joins: dates and currencies have a fixed length, so no two lists of
-- parts have the same join.
pub record CacheKey : Type 0 where
  pub property_id : ℕ
  pub checkin : ℕ
  pub checkout : ℕ
  pub currency_code : String
  pub lang : String

pub record CacheEntry : Type 0 where
  pub key : CacheKey
  pub value : AvailabilityResult
  pub expires_at : ℕ

-- `key.property_id` is the local property here, not the external one.
pub record AvailabilitySnapshot : Type 0 where
  pub key : CacheKey
  pub result : AvailabilityResult
  pub created_at : ℕ
