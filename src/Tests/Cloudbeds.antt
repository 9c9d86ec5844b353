-- ===== src/Tests/Cloudbeds.antt =====
-- The theorems about searches and reservations at the booking engine.
use deptoflex_back.Cloudbeds.{
  BookingProvider, CloudbedsConfig, CloudbedsRequest, ConfirmReservation, Confirmation,
  SearchAvailability, cache_get, confirm_from_cloudbeds, enrich_with_local_units, is_taken,
  run_cloudbeds, search_availability, set_intent_status,
}
use deptoflex_back.Cloudbeds.Cached.{found_rooms, search_availability-survives}
use deptoflex_back.Cloudbeds.Enriched.{enrich_with_local_units-matches}
use deptoflex_back.Cloudbeds.Life.{IntentLife}
use deptoflex_back.Cloudbeds.Lives.{run_cloudbeds-refines}
use deptoflex_back.Cloudbeds.Registered.{confirm_from_cloudbeds-once}
use deptoflex_back.Prelude.{
  Extends, List, Option, String, [], arith, exists, false, find_first, find_many, has_text, none,
  refl, some, true, ℕ, ◌==?◌, ◌==◌, ◌∷◌, ◌≡◌,
}
use deptoflex_back.Store.{
  AmbassadorSession, AmbassadorSessionStatus, AvailabilityResult, AvailableRoom, Booking,
  BookingSource, BookingStatus, Db, Env, IntentStatus, Property, ReservationIntent, add_commission,
  add_history, ok, ◌>>=◌,
}
use deptoflex_back.Tests.{env, office}
use deptoflex_back.Ambassadors.{
  ReservationNotice, created, handle_cloudbeds_reservation, invalid_token,
}
use deptoflex_back.Ambassadors.Trusted.{IsSafe, handle_cloudbeds_reservation-IsSafe}
use deptoflex_back.Store.Hoare.{Post}

abbrev config : CloudbedsConfig
config = record { cache_ttl_ms = 300000; intent_ttl_ms = 1800000 }

abbrev hotel : Property
hotel = record {
  id = 1;
  commission_rate = some 1000;
  default_currency = "ARS";
  cloudbeds_widget_property_id = some 9;
  cloudbeds_booking_slug = none;
  deleted_at = none;
}

abbrev room : AvailableRoom
room = record { room_type_id = 4; rate_id = none; remaining = 2; total_amount = some 90000 }

abbrev rooms : AvailabilityResult
rooms = record {
  property_external_id = 9;
  total_available = 1;
  rooms = room ∷ [];
  http_status = 200;
}

abbrev page : Confirmation
page = record {
  reservation_id = some 88;
  guest_name = some "Ida";
  guest_email = none;
  guest_phone = none;
  checkin = none;
  checkout = none;
  total_amount = some 90000;
  currency_code = none;
  property_external_id = some 9;
  room_type_id = none;
}

abbrev engine : Option AvailabilityResult → BookingProvider
engine answer = record {
  search_rooms = λ _. answer;
  build_reservation_redirect_url = λ _. "https://engine/booking";
  get_confirmation = λ _. some page;
}

abbrev wanted_dates : SearchAvailability
wanted_dates = record {
  property_id = 9;
  checkin = 3000000000;
  checkout = 4000000000;
  currency_code = some "ars";
  lang = none;
  adults = none;
  children = none;
}

abbrev intent : ReservationIntent
intent = record {
  id = 5;
  property_id = 1;
  room_type_id = 4;
  rate_id = none;
  checkin = 3000000000;
  checkout = 4000000000;
  adults = 2;
  children = 0;
  total_amount = some 90000;
  currency_code = "ARS";
  redirect_url = "https://engine/booking";
  status = IntentStatus.redirected;
  user_id = none;
  professional_profile_id = some 1;
  ip_address = none;
  user_agent = none;
  expires_at = 5000;
  redirected_at = some 900;
}

abbrev hotel_office : Db
hotel_office = record office {
  properties = hotel ∷ [];
  units =
      record { id = 3; property_id = 1; cloudbeds_room_type_id = some 4; deleted_at = none } ∷ [];
  reservation_intents = intent ∷ [];
}

abbrev at : ℕ → Env
at time = record env { now = time }

search_availability-survives_example :
    let r = search_availability env config (engine (some rooms)) wanted_dates hotel_office in
    let found = found_rooms env config wanted_dates hotel rooms hotel_office in
    (r.0 ≡ ok (found false false))
    × (search_availability (at 2000) config (engine none) wanted_dates r.1
        ≡ (ok (found true false), r.1))
    × (search_availability (at 400000) config (engine none) wanted_dates r.1
        ≡ (ok (found true true), r.1))
unfolding find_first cache_get
search_availability-survives_example =
    search_availability-survives env (at 2000) (at 400000) config (engine (some rooms))
      (engine none) (engine none) wanted_dates hotel rooms hotel_office (omega arith) (omega arith)
      (omega arith) (omega arith) refl refl refl refl (omega arith) (omega arith) (omega arith)

enrich_with_local_units-matches_example :
    enrich_with_local_units 1 (room ∷ []) hotel_office.units
    ≡ record { room = room; local_units = 3 ∷ [] } ∷ []
unfolding find_many
enrich_with_local_units-matches_example =
    enrich_with_local_units-matches 1 (room ∷ []) hotel_office.units

abbrev guest_confirms : CloudbedsRequest
guest_confirms =
    CloudbedsRequest.confirm_reservation (record {
      data_res = "token";
      reservation_intent_id = some 5;
      professional_profile_id = none;
    })

abbrev two_requests : List (Env × CloudbedsConfig × BookingProvider × CloudbedsRequest)
two_requests =
    (env, config, engine none, CloudbedsRequest.expire)
    ∷ (env, config, engine none, guest_confirms)
    ∷ []

run_cloudbeds-refines_example :
    Extends
      (IntentLife ((1000, CloudbedsRequest.expire) ∷ (1000, guest_confirms) ∷ []))
      (intent ∷ [])
      (run_cloudbeds two_requests hotel_office).reservation_intents
run_cloudbeds-refines_example = run_cloudbeds-refines two_requests hotel_office

confirm_from_cloudbeds-once_example :
    let dto : ConfirmReservation = record {
      data_res = "token";
      reservation_intent_id = some 5;
      professional_profile_id = none;
    } in
    let r = confirm_from_cloudbeds env (engine none) dto hotel_office in
    (r.0 ≡ ok 7)
    × ((b : Booking) × (find_first (λ b. b.cloudbeds_reservation_id ==? 88) r.1.bookings ≡ some b)
        × (b.status ≡ BookingStatus.confirmed)
        × (b.source ≡ BookingSource.cloudbeds)
        × (b.property_id ≡ some 1)
        × (b.check_in_date ≡ 3000000000)
        × (b.check_out_date ≡ 4000000000))
    × (find_first (λ j. j.id == 5) r.1.reservation_intents
        ≡ some (set_intent_status IntentStatus.confirmed intent))
    × (confirm_from_cloudbeds env (engine none) dto r.1 ≡ r)
unfolding find_first exists is_taken
confirm_from_cloudbeds-once_example =
    confirm_from_cloudbeds-once env env (engine none) (engine none) "token" none page 88 intent
      hotel_office refl refl refl refl refl refl

abbrev guest_session : AmbassadorSession
guest_session = record {
  id = 6;
  professional_profile_id = 1;
  status = AmbassadorSessionStatus.started;
  is_guest = true;
  tracking_token_hash = some 3;
  property_id = some 1;
  expires_at = some 2000;
  booking_id = none;
  cloudbeds_reservation_id = none;
}

abbrev tracked_office : Db
tracked_office = record office { ambassador_sessions = guest_session ∷ [] }

abbrev guest_notice : Option String → ReservationNotice
guest_notice token = record {
  session_id = 6;
  tracking_token = token;
  booking_id = some 90;
  reservation = record {
    client_name = "Ida";
    client_email = none;
    client_phone = none;
    check_in = 1000000000;
    check_out = 1100000000;
    adults = 2;
    children = 0;
    total_nights = 2;
    total_amount = 90000;
    currency = "ARS";
    widget_property_id = none;
    room_type_id = none;
    hotel_name = none;
    location_hint = none;
  };
}

handle_cloudbeds_reservation-IsSafe_example :
    Post
      (λ s. s ≡ tracked_office)
      (IsSafe env (λ _. 3) (guest_notice (some "abc")) tracked_office)
      (handle_cloudbeds_reservation env (λ _. 3) (guest_notice (some "abc")) tracked_office)
handle_cloudbeds_reservation-IsSafe_example =
    handle_cloudbeds_reservation-IsSafe env (λ _. 3) (guest_notice (some "abc")) tracked_office

notice_creates :
    (handle_cloudbeds_reservation env (λ _. 3) (guest_notice (some "abc")) tracked_office).0
    ≡ ok (created 7)
unfolding handle_cloudbeds_reservation ◌>>=◌ find_first has_text is_taken exists add_history
    add_commission
notice_creates = refl

notice_without_token :
    (handle_cloudbeds_reservation env (λ _. 3) (guest_notice none) tracked_office).0
    ≡ ok invalid_token
unfolding handle_cloudbeds_reservation ◌>>=◌ find_first
notice_without_token = refl
