-- ===== src/Bookings/Service.antt =====
-- The methods of `BookingsService` that read or change one booking.
use mathlib.Core.Option
use deptoflex_back.Prelude.{
  Bool, List, Option, String, create, date_of, delete_many, exists, false, find_first,
  if◌then◌else◌, is_none, is_some, leb, map, max, none, not, some, text_or_null, ℕ, ◌&&◌, ◌+◌, ◌-◌,
  ◌/◌, ◌===◌, ◌==?◌, ◌==◌, ◌otherwise◌, ◌||◌,
}
use deptoflex_back.Store.{
  Action, Actor, Booking, BookingSource, BookingStatus, Commission, CommissionStatus, Env,
  FlexBookingStatus, Message, add_commission, add_history, bad_request, booking_source_enum,
  booking_status_enum, commission_status_enum, database, flex_booking_status_enum, gets, modify,
  not_found, or_throw, pure, send, set_commission_status, set_flex_status, set_status, throw_if,
  transaction, update_booking, update_commissions, update_flex_booking, when, ◌>>=◌, ◌>>◌,
}
use deptoflex_back.Workflow.{approve_trusted_temporal_on_confirm}
use deptoflex_back.Rates.{commission_amount, resolve_temporal_rate}

-- `Math.ceil((end - start) / day)`, 0 or less where the end is not after the start
unfoldable pub nights : ℕ → ℕ → ℕ
nights start end = (end - start + 86399999) / 86400000

-- `CreateBookingDto`, its dates parsed
pub record CreateBooking : Type 0 where
  pub lead_id : Option ℕ
  pub unit_id : ℕ
  pub professional_profile_id : Option ℕ
  pub client_name : String
  pub client_email : Option String
  pub client_phone : Option String
  pub check_in_date : ℕ
  pub check_out_date : ℕ
  pub adults : ℕ
  pub children : Option ℕ
  pub base_amount : ℕ
  pub total_amount : ℕ
  pub currency : Option String
  pub notes : Option String

-- The row that `create` writes.
unfoldable pub new_booking : Env → CreateBooking → List Booking → Booking
unfolding nights
new_booking env dto rows = record {
  id = env.fresh (map (λ b. b.id) rows);
  source = BookingSource.direct;
  lead_id = dto.lead_id;
  unit_id = some dto.unit_id;
  property_id = none;
  property_flex_id = none;
  flex_booking_id = none;
  reservation_intent_id = none;
  cloudbeds_reservation_id = none;
  professional_profile_id = dto.professional_profile_id;
  client_name = dto.client_name;
  client_email = dto.client_email;
  client_phone = dto.client_phone;
  check_in_date = date_of dto.check_in_date;
  check_out_date = date_of dto.check_out_date;
  adults = dto.adults;
  children = dto.children otherwise 0;
  total_nights = nights dto.check_in_date dto.check_out_date;
  base_amount = dto.base_amount;
  total_amount = dto.total_amount;
  currency = dto.currency otherwise "ARS";
  status = BookingStatus.pending;
  notes = dto.notes;
  deleted_at = none;
}

-- The column `leadId` is unique.
unfoldable pub lead_is_taken : Option ℕ → List Booking → Bool
lead_is_taken none rows = false
lead_is_taken (some lead) rows = exists (λ b. b.lead_id ==? lead) rows

-- `create`
unfoldable pub create_booking : Env → CreateBooking → Actor → Action ℕ
unfolding new_booking lead_is_taken
create_booking env dto changed_by = do
  throw_if (nights dto.check_in_date dto.check_out_date == 0) bad_request
  transaction do
    throw_if (← gets (λ s. lead_is_taken dto.lead_id s.bookings)) database
    booking ← gets (λ s. new_booking env dto s.bookings)
    modify λ s. record s { bookings = create booking s.bookings }
    add_history booking.id none BookingStatus.pending none (some changed_by)
    pure booking.id

unfoldable pub live_booking : ℕ → Booking → Bool
live_booking id b = b.id == id && is_none b.deleted_at

-- `findOne`
unfoldable pub find_booking : ℕ → Action Booking
unfolding live_booking
find_booking id = do
  booking ← gets (λ s. find_first (live_booking id) s.bookings)
  or_throw booking not_found

-- `if (booking.unitId) { await tx.unitAvailability.create(…) }`
unfoldable pub block_unit : Booking → Option ℕ → Action (Unit {0})
block_unit b none = pure tt
block_unit b (some unit) = modify λ s. record s {
  unit_availability =
      create
        (record {
          unit_id = unit;
          start_date = b.check_in_date;
          end_date = b.check_out_date;
          is_available = false;
          booking_id = some b.id;
        })
        s.unit_availability;
}

-- The commission that `confirm` creates, by the booking's profile and property.
unfoldable pub create_temporal_commission : Env → Booking → Option ℕ → Option ℕ → Action (Unit {0})
create_temporal_commission env b none property_id = pure tt
create_temporal_commission env b (some profile) none = pure tt
create_temporal_commission env b (some profile) (some property_id) = do
  rate ← gets (λ s. resolve_temporal_rate s property_id (some profile))
  commission_id ← gets (λ s. env.fresh (map (λ c. c.id) s.commissions))
  add_commission (record {
    id = commission_id;
    booking_id = b.id;
    professional_profile_id = some profile;
    settlement_id = none;
    rate = rate;
    base_amount = b.total_amount;
    commission_amount = commission_amount env b.total_amount rate;
    currency = b.currency;
    status = CommissionStatus.pending;
    approved_at = none;
    paid_at = none;
  })
  approve_trusted_temporal_on_confirm env b.id

-- The part of `confirm` that looks for the booking's commission.
unfoldable pub settle_commission : Env → Booking → Option Commission → Action (Unit {0})
settle_commission env b none =
    create_temporal_commission env b b.professional_profile_id b.property_id
settle_commission env b (some c) =
    when (c.status === CommissionStatus.pending) (approve_trusted_temporal_on_confirm env b.id)

-- `confirm`
unfoldable pub confirm : Env → ℕ → Option String → Actor → Action (Unit {0})
confirm env id reason changed_by = do
  booking ← find_booking id
  throw_if (not (booking.status === BookingStatus.pending)) bad_request
  transaction do
    update_booking id (set_status BookingStatus.confirmed)
    add_history id (some BookingStatus.pending) BookingStatus.confirmed reason (some changed_by)
    block_unit booking booking.unit_id
    existing ← gets (λ s. find_first (λ c. c.booking_id == id) s.commissions)
    settle_commission env booking existing
  send (Message.booking_confirmed id)

-- `if (booking.flexBookingId) { await tx.flexBooking.update(…) }`
unfoldable pub cancel_flex_booking : Option ℕ → Action (Unit {0})
cancel_flex_booking none = pure tt
cancel_flex_booking (some id) = update_flex_booking id (set_flex_status FlexBookingStatus.cancelled)

-- `executeCancellation`, which `cancel` calls; the commission is the one that `findOne` joined.
unfoldable pub execute_cancellation : ℕ → String → Actor → Action (Unit {0})
execute_cancellation id reason changed_by = do
  booking ← find_booking id
  throw_if (booking.status === BookingStatus.cancelled) bad_request
  throw_if (booking.status === BookingStatus.completed) bad_request
  transaction do
    cancel_flex_booking booking.flex_booking_id
    update_booking id (set_status BookingStatus.cancelled)
    add_history id (some booking.status) BookingStatus.cancelled (some reason) (some changed_by)
    modify λ s. record s {
      unit_availability = delete_many (λ u. u.booking_id ==? id) s.unit_availability;
    }
    update_commissions (λ c. c.booking_id == id) (set_commission_status CommissionStatus.cancelled)
  send (Message.booking_cancelled id reason)

-- `complete`
unfoldable pub complete : ℕ → Option String → Actor → Action (Unit {0})
complete id reason changed_by = do
  booking ← find_booking id
  throw_if (not (booking.status === BookingStatus.confirmed)) bad_request
  transaction do
    update_booking id (set_status BookingStatus.completed)
    add_history id (some BookingStatus.confirmed) BookingStatus.completed reason (some changed_by)

-- `UpdateBookingDto`: a column is `none` where the field is undefined, and `some none` where it is
-- given as null.
pub record UpdateBooking : Type 0 where
  pub client_name : Option String
  pub client_email : Option (Option String)
  pub client_phone : Option (Option String)
  pub notes : Option (Option String)
  pub check_in_date : Option ℕ
  pub check_out_date : Option ℕ

-- The `data` of `update`.
unfoldable pub apply_update : UpdateBooking → Booking → Booking
unfolding nights
apply_update dto b =
    let check_in = dto.check_in_date otherwise b.check_in_date in
    let check_out = dto.check_out_date otherwise b.check_out_date in
    record b {
      client_name = dto.client_name otherwise b.client_name;
      client_email = Option.map text_or_null dto.client_email otherwise b.client_email;
      client_phone = Option.map text_or_null dto.client_phone otherwise b.client_phone;
      notes = Option.map text_or_null dto.notes otherwise b.notes;
      check_in_date = Option.map date_of dto.check_in_date otherwise b.check_in_date;
      check_out_date = Option.map date_of dto.check_out_date otherwise b.check_out_date;
      total_nights =
          if is_some dto.check_in_date || is_some dto.check_out_date
          then max 1 (nights check_in check_out)
          else b.total_nights;
    }

-- `update`
unfoldable pub update : ℕ → UpdateBooking → Action (Unit {0})
update id dto = do
  booking ← find_booking id
  throw_if (booking.source === BookingSource.flex || is_some booking.flex_booking_id) bad_request
  throw_if (booking.status === BookingStatus.cancelled) bad_request
  throw_if
      (leb (dto.check_out_date otherwise booking.check_out_date)
        (dto.check_in_date otherwise booking.check_in_date))
      bad_request
  update_booking id (apply_update dto)

-- `softDelete`
unfoldable pub soft_delete : Env → ℕ → Action (Unit {0})
soft_delete env id = do
  find_booking id >> update_booking id (λ b. record b { deleted_at = some env.now })
