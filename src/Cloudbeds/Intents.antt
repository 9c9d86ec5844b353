-- ===== src/Cloudbeds/Intents.antt =====
-- `ReservationIntentsService`, of reservation-intents.service.ts.
use mathlib.Core.Option
use deptoflex_back.Bookings.{nights}
use deptoflex_back.Cloudbeds.Provider.{
  BookingProvider, CloudbedsConfig, Confirmation, RedirectInput,
}
use deptoflex_back.Cloudbeds.Search.{SearchAvailability, mapped_property, search_availability}
use deptoflex_back.Prelude.{
  Bool, List, Option, String, create, exists, false, find_first, is_none, map, max, none, some,
  to_lower_case, to_upper_case, ℕ, ◌&&◌, ◌+◌, ◌==?◌, ◌==◌, ◌or_else◌, ◌otherwise◌,
}
use deptoflex_back.Store.{
  Action, AvailableRoom, Booking, BookingSource, BookingStatus, Db, Env, IntentStatus, Property,
  ReservationIntent, bad_request, gets, modify, not_found, or_throw, pure, throw_if, ◌>>=◌, ◌>>◌,
}

-- `CreateReservationIntentDto`, its dates parsed
pub record CreateReservationIntent : Type 0 where
  pub property_id : ℕ
  pub professional_profile_id : Option ℕ
  pub room_type_id : ℕ
  pub rate_id : Option ℕ
  pub checkin : ℕ
  pub checkout : ℕ
  pub currency_code : Option String
  pub lang : Option String
  pub adults : Option ℕ
  pub children : Option ℕ

-- The `context` of `create`
pub record IntentContext : Type 0 where
  pub user_id : Option ℕ
  pub ip_address : Option String
  pub user_agent : Option String

unfoldable pub search_of_intent : CreateReservationIntent → ℕ → SearchAvailability
search_of_intent dto external = record {
  property_id = external;
  checkin = dto.checkin;
  checkout = dto.checkout;
  currency_code = some (to_upper_case (dto.currency_code otherwise "ARS"));
  lang = some (to_lower_case (dto.lang otherwise "es"));
  adults = dto.adults;
  children = dto.children;
}

unfoldable pub redirect_of_intent :
    CreateReservationIntent → Property → ℕ → AvailableRoom → RedirectInput
redirect_of_intent dto p external room = record {
  key = record {
    property_id = external;
    checkin = dto.checkin;
    checkout = dto.checkout;
    currency_code = to_upper_case (dto.currency_code otherwise "ARS");
    lang = to_lower_case (dto.lang otherwise "es");
  };
  booking_slug = p.cloudbeds_booking_slug;
  room_type_id = dto.room_type_id;
  rate_id = dto.rate_id or_else room.rate_id;
  adults = dto.adults;
  children = dto.children;
}

unfoldable pub new_intent :
    Env
    → CloudbedsConfig
    → CreateReservationIntent
    → IntentContext
    → Property
    → AvailableRoom
    → String
    → List ReservationIntent
    → ReservationIntent
new_intent env cfg dto context p room url rows = record {
  id = env.fresh (map (λ i. i.id) rows);
  property_id = p.id;
  room_type_id = dto.room_type_id;
  rate_id = dto.rate_id or_else room.rate_id;
  checkin = dto.checkin;
  checkout = dto.checkout;
  adults = dto.adults otherwise 1;
  children = dto.children otherwise 0;
  total_amount = room.total_amount;
  currency_code = to_upper_case (dto.currency_code otherwise "ARS");
  redirect_url = url;
  status = IntentStatus.pending;
  user_id = context.user_id;
  professional_profile_id = dto.professional_profile_id;
  ip_address = context.ip_address;
  user_agent = context.user_agent;
  expires_at = env.now + cfg.intent_ttl_ms;
  redirected_at = none;
}

abbrev intent_property : ℕ → Db → Option Property
intent_property id s = find_first (λ p. p.id == id && is_none p.deleted_at) s.properties

-- `create`; a price that has drifted is only logged.
unfoldable pub create_intent :
    Env → CloudbedsConfig → BookingProvider → CreateReservationIntent → IntentContext → Action ℕ
unfolding search_availability search_of_intent redirect_of_intent new_intent
create_intent env cfg engine dto context = do
  property ← gets (intent_property dto.property_id)
  property ← or_throw property not_found
  external ← or_throw property.cloudbeds_widget_property_id bad_request
  answer ← search_availability env cfg engine (search_of_intent dto external)
  room ←
      or_throw (find_first (λ r. r.room.room_type_id == dto.room_type_id) answer.rooms) bad_request
  throw_if (room.room.remaining == 0) bad_request
  let url =
      engine.build_reservation_redirect_url (redirect_of_intent dto property external room.room)
  intent ← gets (λ s. new_intent env cfg dto context property room.room url s.reservation_intents)
  modify λ s. record s { reservation_intents = create intent s.reservation_intents }
  pure intent.id

-- `ConfirmReservationDto`
pub record ConfirmReservation : Type 0 where
  pub data_res : String
  pub reservation_intent_id : Option ℕ
  pub professional_profile_id : Option ℕ

-- The intent that the request names, which must exist
unfoldable pub intent_of : Option ℕ → Action (Option ReservationIntent)
intent_of none = pure none
intent_of (some id) = do
  intent ← gets (λ s. find_first (λ i. i.id == id) s.reservation_intents)
  intent ← or_throw intent not_found
  pure (some intent)

-- The property: the intent's, or the one of the external id on the page
unfoldable pub resolve_property : Option ReservationIntent → Confirmation → Db → Option ℕ
resolve_property (some i) conf s = some i.property_id
resolve_property none conf s =
    Option.bind conf.property_external_id λ e. Option.map (λ p. p.id) (mapped_property e s)

unfoldable pub resolve_unit : ℕ → Option ℕ → Db → Option ℕ
resolve_unit property none s = none
resolve_unit property (some type) s =
    Option.map (λ u. u.id)
      (find_first
        (λ u.
          u.property_id == property && u.cloudbeds_room_type_id ==? type && is_none u.deleted_at)
        s.units)

-- A booking as the confirmation, the intent and the request give it
pub record Reservation : Type 0 where
  pub intent : Option ReservationIntent
  pub conf : Confirmation
  pub property_id : ℕ
  pub unit_id : Option ℕ
  pub professional_profile_id : Option ℕ
  pub check_in : ℕ
  pub check_out : ℕ

unfoldable pub reservation_amount : Reservation → ℕ
reservation_amount r =
    r.conf.total_amount otherwise Option.bind r.intent (λ i. i.total_amount) otherwise 0

unfoldable pub reservation_currency : Reservation → String
reservation_currency r =
    to_upper_case
      (r.conf.currency_code otherwise Option.map (λ i. i.currency_code) r.intent otherwise "ARS")

unfoldable pub cloudbeds_booking : Env → Reservation → List Booking → Booking
unfolding nights reservation_amount reservation_currency to_upper_case
cloudbeds_booking env r rows = record {
  id = env.fresh (map (λ b. b.id) rows);
  source = BookingSource.cloudbeds;
  lead_id = none;
  unit_id = r.unit_id;
  property_id = some r.property_id;
  property_flex_id = none;
  flex_booking_id = none;
  reservation_intent_id = Option.map (λ i. i.id) r.intent;
  cloudbeds_reservation_id = r.conf.reservation_id;
  professional_profile_id = r.professional_profile_id;
  client_name = r.conf.guest_name otherwise "Cloudbeds Guest";
  client_email = r.conf.guest_email;
  client_phone = r.conf.guest_phone;
  check_in_date = r.check_in;
  check_out_date = r.check_out;
  adults = Option.map (λ i. i.adults) r.intent otherwise 1;
  children = Option.map (λ i. i.children) r.intent otherwise 0;
  total_nights = max 1 (nights r.check_in r.check_out);
  base_amount = reservation_amount r;
  total_amount = reservation_amount r;
  currency = reservation_currency r;
  status = BookingStatus.confirmed;
  notes = none;
  deleted_at = none;
}

-- The value of a unique column is in another row; null is in none.
unfoldable pub is_taken : (Booking → Option ℕ) → Option ℕ → Db → Bool
is_taken column none s = false
is_taken column (some v) s = exists (λ b. column b ==? v) s.bookings
