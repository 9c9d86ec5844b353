-- ===== src/Ambassadors/Notice.antt =====
-- `handleCloudbedsReservation`.
use mathlib.Core.Option
use deptoflex_back.Cloudbeds.{is_taken}
use deptoflex_back.Prelude.{
  Bool, List, Option, String, create, date_of, false, find_first, has_text, if◌then◌else◌, is_none,
  ltb, map, none, not, some, text_or_null, trim, true, update_many, ℕ, ◌&&◌, ◌===◌, ◌==?◌, ◌==◌,
}
use deptoflex_back.Rates.{commission_amount, default_rate, resolve_temporal_rate}
use deptoflex_back.Store.{
  Action, AmbassadorSession, AmbassadorSessionStatus, Booking, BookingSource, BookingStatus,
  Commission, CommissionStatus, Db, Env, add_commission, add_history,
  ambassador_session_status_enum, booking_source_enum, booking_status_enum, branch,
  commission_status_enum, database, gets, modify, pure, throw_if, transaction, ◌>>=◌, ◌>>◌,
}

-- What `parseReservation` makes of the notice, and of the address of the session's page
pub record ParsedReservation : Type 0 where
  pub client_name : String
  pub client_email : Option String
  pub client_phone : Option String
  pub check_in : ℕ
  pub check_out : ℕ
  pub adults : ℕ
  pub children : ℕ
  pub total_nights : ℕ
  pub total_amount : ℕ
  pub currency : String
  pub widget_property_id : Option ℕ
  pub room_type_id : Option ℕ
  pub hotel_name : Option String
  pub location_hint : Option String

-- `CloudbedsReservationDto`, its booking id trimmed, `none` where it is empty, and with what is parsed
pub record ReservationNotice : Type 0 where
  pub session_id : ℕ
  pub tracking_token : Option String
  pub booking_id : Option ℕ
  pub reservation : ParsedReservation

-- The answer, `ok` in every case
pub data NoticeAnswer : Type 0 where
  session_not_found session_expired invalid_token : NoticeAnswer
  duplicate created : ℕ → NoticeAnswer

unfoldable pub is_past : Env → Option ℕ → Bool
is_past env none = false
is_past env (some time) = ltb time env.now

-- A session with the hash of a token asks for that token, as `hashTrackingToken` gives its hash.
unfoldable pub token_fits : (String → ℕ) → Option ℕ → Option String → Bool
token_fits hash none token = true
token_fits hash (some expected) none = false
token_fits hash (some expected) (some token) = has_text token && hash (trim token) == expected

-- The booking that the notice, or its session, has already
unfoldable pub noticed_booking : ReservationNotice → AmbassadorSession → Db → Option ℕ
noticed_booking dto session s = elim dto.booking_id [
  | some id ↦
      Option.map (λ b. b.id) (find_first (λ b. b.cloudbeds_reservation_id ==? id) s.bookings)
  | none ↦ if session.status === AmbassadorSessionStatus.confirmed then session.booking_id else none
]

-- The property that the notice names; where it names none, the session's
unfoldable pub noticed_property : ParsedReservation → AmbassadorSession → Db → Option ℕ
noticed_property r session s = elim r.widget_property_id [
  | none ↦ session.property_id
  | some widget ↦
      Option.map (λ p. p.id)
        (find_first (λ p. p.cloudbeds_widget_property_id ==? widget && is_none p.deleted_at)
          s.properties)
]

-- The property and the unit, by the type of the room
unfoldable pub place_of : Option ℕ → Option ℕ → Db → Option ℕ × Option ℕ
place_of property none s = (property, none)
place_of none (some room) s =
    let unit =
      find_first (λ u. u.cloudbeds_room_type_id ==? room && is_none u.deleted_at) s.units in
    (Option.map (λ u. u.property_id) unit, Option.map (λ u. u.id) unit)
place_of (some property) (some room) s =
    let unit =
      find_first
        (λ u.
          u.property_id == property && u.cloudbeds_room_type_id ==? room && is_none u.deleted_at)
        s.units in
    (some property, Option.map (λ u. u.id) unit)

-- A text before another
unfoldable pub text_before : String → String → String
text_before String.[] b = b
text_before (String.◌∷◌ c a) b = String.◌∷◌ c (text_before a b)

unfoldable pub hint_text : String → Option String → String
unfolding text_before text_or_null
hint_text label hint = elim (text_or_null hint) [
  | none ↦ ""
  | some h ↦ text_before label (text_before h ".")
]

-- `buildBookingNotes`
unfoldable pub notes_of : ParsedReservation → Option ℕ → Bool → String
unfolding text_before hint_text
notes_of r property is_guest =
    let mode = if is_guest then "link de huésped" else "embajador directo" in
    let notes =
      text_before "Reserva atribuida vía tracking de embajador (Cloudbeds, modo "
        (text_before mode ", sin API oficial). Pendiente de validación.") in
    if is_none property
    then text_before notes (
        text_before (hint_text " Hotel: " r.hotel_name)
          (hint_text " Ubicación reportada: " r.location_hint))
    else notes

-- `data` of `tx.booking.create`
unfoldable pub noticed_row :
    Env → ReservationNotice → AmbassadorSession → Option ℕ × Option ℕ → List Booking → Booking
unfolding notes_of
noticed_row env dto session place rows = record {
  id = env.fresh (map (λ b. b.id) rows);
  source = BookingSource.cloudbeds;
  lead_id = none;
  unit_id = place.1;
  property_id = place.0;
  property_flex_id = none;
  flex_booking_id = none;
  reservation_intent_id = none;
  cloudbeds_reservation_id = dto.booking_id;
  professional_profile_id = some session.professional_profile_id;
  client_name = dto.reservation.client_name;
  client_email = dto.reservation.client_email;
  client_phone = dto.reservation.client_phone;
  check_in_date = date_of dto.reservation.check_in;
  check_out_date = date_of dto.reservation.check_out;
  adults = dto.reservation.adults;
  children = dto.reservation.children;
  total_nights = dto.reservation.total_nights;
  base_amount = dto.reservation.total_amount;
  total_amount = dto.reservation.total_amount;
  currency = dto.reservation.currency;
  status = BookingStatus.pending;
  notes = some (notes_of dto.reservation place.0 session.is_guest);
  deleted_at = none;
}

-- The rate of the property, or `resolveDefaultRate`
unfoldable pub noticed_rate : Option ℕ → ℕ → Db → ℕ
noticed_rate (some property) profile s = resolve_temporal_rate s property (some profile)
noticed_rate none profile s = (default_rate s (some profile)).rate

-- `data` of `tx.commission.create`
unfoldable pub noticed_commission : Env → ℕ → Booking → ℕ → List Commission → Commission
noticed_commission env rate b profile rows = record {
  id = env.fresh (map (λ c. c.id) rows);
  booking_id = b.id;
  professional_profile_id = some profile;
  settlement_id = none;
  rate = rate;
  base_amount = b.total_amount;
  commission_amount = commission_amount env b.total_amount rate;
  currency = b.currency;
  status = CommissionStatus.pending_validation;
  approved_at = none;
  paid_at = none;
}

abbrev pub confirm_session : ℕ → Option ℕ → AmbassadorSession → AmbassadorSession
confirm_session booking reservation x = record x {
  status = AmbassadorSessionStatus.confirmed;
  booking_id = some booking;
  cloudbeds_reservation_id = reservation;
}

-- The transaction
unfoldable pub register_notice :
    Env → ReservationNotice → AmbassadorSession → Option ℕ × Option ℕ → Action ℕ
unfolding noticed_row noticed_rate noticed_commission
register_notice env dto session place = transaction do
  throw_if (← gets (is_taken (λ b. b.cloudbeds_reservation_id) dto.booking_id)) database
  booking ← gets (λ s. noticed_row env dto session place s.bookings)
  modify λ s. record s { bookings = create booking s.bookings }
  add_history booking.id none BookingStatus.pending
      (some "Aviso de reservation-created desde Cloudbeds (tracking de embajador)") none
  rate ← gets (noticed_rate place.0 session.professional_profile_id)
  commission ←
      gets (λ s. noticed_commission env rate booking session.professional_profile_id s.commissions)
  add_commission commission
  modify λ s. record s {
    ambassador_sessions =
        update_many (λ x. x.id == session.id) (confirm_session booking.id dto.booking_id)
          s.ambassador_sessions;
  }
  pure booking.id

unfoldable pub notice_once :
    Env → ReservationNotice → AmbassadorSession → Option ℕ → Action NoticeAnswer
unfolding noticed_property place_of register_notice
notice_once env dto session (some existing) = pure (duplicate existing)
notice_once env dto session none = do
  property ← gets (noticed_property dto.reservation session)
  place ← gets (place_of property dto.reservation.room_type_id)
  id ← register_notice env dto session place
  pure (created id)

unfoldable pub notice_in :
    Env → (String → ℕ) → ReservationNotice → Option AmbassadorSession → Action NoticeAnswer
unfolding is_past token_fits noticed_booking notice_once
notice_in env hash dto none = pure session_not_found
notice_in env hash dto (some session) =
    branch (is_past env session.expires_at) (pure session_expired) (
      branch (not (token_fits hash session.tracking_token_hash dto.tracking_token))
        (pure invalid_token)
        do existing ← gets (noticed_booking dto session); notice_once env dto session existing)

-- `handleCloudbedsReservation`
unfoldable pub handle_cloudbeds_reservation :
    Env → (String → ℕ) → ReservationNotice → Action NoticeAnswer
unfolding notice_in
handle_cloudbeds_reservation env hash dto = do
  session ← gets (λ s. find_first (λ x. x.id == dto.session_id) s.ambassador_sessions)
  notice_in env hash dto session
