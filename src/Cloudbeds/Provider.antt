-- ===== src/Cloudbeds/Provider.antt =====
-- providers/booking-provider.interface.ts: the booking engine as its clients see it.
use deptoflex_back.Prelude.{Option, String, ℕ}
use deptoflex_back.Store.{AvailabilityResult, CacheKey}

pub record SearchInput : Type 0 where
  pub key : CacheKey
  pub adults : Option ℕ
  pub children : Option ℕ

pub record RedirectInput : Type 0 where
  pub key : CacheKey
  pub booking_slug : Option String
  pub room_type_id : ℕ
  pub rate_id : Option ℕ
  pub adults : Option ℕ
  pub children : Option ℕ

-- `ConfirmationResult`, the fields that the services read
pub record Confirmation : Type 0 where
  pub reservation_id : Option ℕ
  pub guest_name : Option String
  pub guest_email : Option String
  pub guest_phone : Option String
  pub checkin : Option ℕ
  pub checkout : Option ℕ
  pub total_amount : Option ℕ
  pub currency_code : Option String
  pub property_external_id : Option ℕ
  pub room_type_id : Option ℕ

-- `BookingProvider`; a call that throws answers `none`.
pub record BookingProvider : Type 0 where
  pub search_rooms : SearchInput → Option AvailabilityResult
  pub build_reservation_redirect_url : RedirectInput → String
  pub get_confirmation : String → Option Confirmation

-- The settings CLOUDBEDS_CACHE_TTL_MS and CLOUDBEDS_INTENT_TTL_MS
pub record CloudbedsConfig : Type 0 where
  pub cache_ttl_ms : ℕ
  pub intent_ttl_ms : ℕ
