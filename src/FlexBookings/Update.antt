-- ===== src/FlexBookings/Update.antt =====
-- `update` and `softDelete` of a flex booking.
use mathlib.Core.Option
use deptoflex_back.Prelude.{
  Bool, Option, String, date_of, exists, false, if◌then◌else◌, is_some, leb, max, none, not, some,
  text_or_null, ℕ, ◌&&◌, ◌*◌, ◌===◌, ◌==◌, ◌otherwise◌, ◌||◌,
}
use deptoflex_back.Store.{
  Action, Actor, Booking, BookingStatus, Env, FlexBooking, FlexBookingStatus, Message, add_history,
  bad_request, booking_status_enum, branch, flex_booking_status_enum, gets, pure, send, set_status,
  throw_if, transaction, update_booking, update_commissions, update_flex_booking, when, ◌>>=◌, ◌>>◌,
}
use deptoflex_back.Workflow.{approve_on_flex_booking_confirmed}
use deptoflex_back.Rates.{is_pending_of, reprice, resolve_flex_rate}
use deptoflex_back.Bookings.{execute_cancellation, nights}
use deptoflex_back.FlexBookings.Create.{overlaps}
use deptoflex_back.FlexBookings.Confirm.{find_flex_booking, registry_row}

-- `UpdateFlexBookingDto`: `none` where a field is undefined; an e-mail, a phone or notes may be
-- given as null, `some none`.
pub record UpdateFlexBooking : Type 0 where
  pub status : Option FlexBookingStatus
  pub notes : Option (Option String)
  pub client_name : Option String
  pub client_email : Option (Option String)
  pub client_phone : Option (Option String)
  pub start_date : Option ℕ
  pub end_date : Option ℕ
  pub total_months : Option ℕ
  pub monthly_amount : Option ℕ
  pub total_amount : Option ℕ

-- `FLEX_TO_BOOKING_STATUS`
unfoldable pub flex_to_booking_status : FlexBookingStatus → BookingStatus
flex_to_booking_status FlexBookingStatus.pending = BookingStatus.pending
flex_to_booking_status FlexBookingStatus.confirmed = BookingStatus.confirmed
flex_to_booking_status FlexBookingStatus.cancelled = BookingStatus.cancelled
flex_to_booking_status FlexBookingStatus.completed = BookingStatus.completed

abbrev pub is_cancellation : Option FlexBookingStatus → Bool
is_cancellation none = false
is_cancellation (some status) = status === FlexBookingStatus.cancelled

-- The status that `update` writes itself: a cancellation goes another way.
abbrev pub written_status : Option FlexBookingStatus → Option FlexBookingStatus
written_status none = none
written_status (some FlexBookingStatus.cancelled) = none
written_status (some FlexBookingStatus.pending) = some FlexBookingStatus.pending
written_status (some FlexBookingStatus.confirmed) = some FlexBookingStatus.confirmed
written_status (some FlexBookingStatus.completed) = some FlexBookingStatus.completed

unfoldable pub gives_amount : UpdateFlexBooking → Bool
gives_amount dto =
    is_some dto.total_amount || is_some dto.monthly_amount || is_some dto.total_months

unfoldable pub gives_date : UpdateFlexBooking → Bool
gives_date dto = is_some dto.start_date || is_some dto.end_date

unfoldable pub monthly_after : UpdateFlexBooking → FlexBooking → ℕ
monthly_after dto b = dto.monthly_amount otherwise b.monthly_amount

-- `dto.totalAmount ?? monthlyAmount * totalMonths`
unfoldable pub total_after : UpdateFlexBooking → FlexBooking → ℕ
unfolding monthly_after
total_after dto b =
    dto.total_amount otherwise (monthly_after dto b * (dto.total_months otherwise b.total_months))

-- `flexData`, written over the row
unfoldable pub apply_flex_update : UpdateFlexBooking → FlexBooking → FlexBooking → FlexBooking
unfolding gives_amount total_after
apply_flex_update dto existing b = record b {
  status = written_status dto.status otherwise b.status;
  notes = dto.notes otherwise b.notes;
  client_name = text_or_null dto.client_name otherwise b.client_name;
  client_email = Option.map text_or_null dto.client_email otherwise b.client_email;
  client_phone = Option.map text_or_null dto.client_phone otherwise b.client_phone;
  start_date = Option.map date_of dto.start_date otherwise b.start_date;
  end_date = Option.map date_of dto.end_date otherwise b.end_date;
  total_months = dto.total_months otherwise b.total_months;
  monthly_amount = dto.monthly_amount otherwise b.monthly_amount;
  total_amount = if gives_amount dto then total_after dto existing else b.total_amount;
}

-- `registryData`, written over the registry's row
unfoldable pub apply_registry_update : UpdateFlexBooking → FlexBooking → Booking → Booking
unfolding gives_amount gives_date total_after
apply_registry_update dto existing b = record b {
  client_name = text_or_null dto.client_name otherwise b.client_name;
  client_email = Option.map text_or_null dto.client_email otherwise b.client_email;
  client_phone = Option.map text_or_null dto.client_phone otherwise b.client_phone;
  notes = Option.map text_or_null dto.notes otherwise b.notes;
  check_in_date = Option.map date_of dto.start_date otherwise b.check_in_date;
  check_out_date = Option.map date_of dto.end_date otherwise b.check_out_date;
  total_nights =
      if gives_date dto
      then max 1 (
          nights (dto.start_date otherwise existing.start_date)
            (dto.end_date otherwise existing.end_date))
      else b.total_nights;
  base_amount = if gives_amount dto then total_after dto existing else b.base_amount;
  total_amount = if gives_amount dto then total_after dto existing else b.total_amount;
}

-- The recalculation of the PENDING commission after a change of the amounts.
unfoldable pub reprice_after : Env → UpdateFlexBooking → FlexBooking → Booking → Action (Unit {0})
unfolding monthly_after
reprice_after env dto existing registry = do
  rate ← gets (λ s. resolve_flex_rate s existing.property_flex_id registry.professional_profile_id)
  update_commissions (is_pending_of registry.id) (reprice env rate (monthly_after dto existing))

-- The change of the registry's status; it returns the id of a row that was confirmed now.
unfoldable pub move_registry :
    Env → Option FlexBookingStatus → Booking → Option Actor → Action (Option ℕ)
unfolding flex_to_booking_status
move_registry env none registry changed_by = pure none
move_registry env (some status) registry changed_by =
    branch (registry.status === flex_to_booking_status status) (pure none) do
      update_booking registry.id (set_status (flex_to_booking_status status))
      add_history registry.id (some registry.status) (flex_to_booking_status status)
          (some "Flex booking status update") changed_by
      when (status === FlexBookingStatus.confirmed)
          (approve_on_flex_booking_confirmed env registry.id)
      pure (if status === FlexBookingStatus.confirmed then some registry.id else none)

-- The part of the transaction of `update` that concerns the registry.
unfoldable pub update_registry :
    Env → UpdateFlexBooking → FlexBooking → Option Actor → Option Booking → Action (Option ℕ)
unfolding apply_registry_update reprice_after move_registry gives_amount
update_registry env dto existing changed_by none = pure none
update_registry env dto existing changed_by (some registry) = do
  update_booking registry.id (apply_registry_update dto existing)
  when (gives_amount dto) (reprice_after env dto existing registry)
  move_registry env (written_status dto.status) registry changed_by

-- The transaction of `update`
unfoldable pub write_update :
    Env → ℕ → UpdateFlexBooking → FlexBooking → Option Actor → Action (Option ℕ)
unfolding apply_flex_update update_registry
write_update env id dto existing changed_by = transaction do
  update_flex_booking id (apply_flex_update dto existing)
  registry ← gets (registry_row id)
  update_registry env dto existing changed_by registry

-- `changedById ?? 'system'`
abbrev pub actor_or_system : Option Actor → Actor
actor_or_system none = Actor.system
actor_or_system (some a) = a

-- The cancellation of the registry's row, unless it is missing or cancelled.
unfoldable pub cancel_registry : String → Option Actor → Option Booking → Action (Unit {0})
cancel_registry reason changed_by none = pure tt
cancel_registry reason changed_by (some registry) =
    when (not (registry.status === BookingStatus.cancelled))
      (execute_cancellation registry.id reason (actor_or_system changed_by))

-- `dto.notes ?? 'Flex booking cancelled'`
abbrev pub cancellation_reason : Option (Option String) → String
cancellation_reason none = "Flex booking cancelled"
cancellation_reason (some none) = "Flex booking cancelled"
cancellation_reason (some (some reason)) = reason

unfoldable pub notify_confirmed : Option ℕ → Action (Unit {0})
notify_confirmed none = pure tt
notify_confirmed (some booking_id) = send (Message.booking_confirmed booking_id)

-- `update`
unfoldable pub update_flex : Env → ℕ → UpdateFlexBooking → Option Actor → Action (Unit {0})
unfolding gives_date write_update cancel_registry notify_confirmed
update_flex env id dto changed_by = do
  existing ← find_flex_booking id
  let start = dto.start_date otherwise existing.start_date
  let end = dto.end_date otherwise existing.end_date
  throw_if (leb end start) bad_request
  taken ← gets (λ s.
      exists
        (λ b.
          not (b.id == id) && overlaps existing.property_flex_id (date_of start) (date_of end) b)
        s.flex_bookings)
  throw_if (gives_date dto && taken) bad_request
  confirmed_booking_id ← write_update env id dto existing changed_by
  when (is_cancellation dto.status) do
    registry ← gets (registry_row id)
    cancel_registry (cancellation_reason dto.notes) changed_by registry
  when (not (is_cancellation dto.status)) (notify_confirmed confirmed_booking_id)

unfoldable pub delete_registry : Env → Option Booking → Action (Unit {0})
delete_registry env none = pure tt
delete_registry env (some registry) =
    update_booking registry.id (λ b. record b { deleted_at = some env.now })

-- `softDelete`
unfoldable pub soft_delete_flex : Env → ℕ → Option Actor → Action (Unit {0})
unfolding cancel_registry delete_registry
soft_delete_flex env id changed_by = do
  find_flex_booking id
  registry ← gets (registry_row id)
  cancel_registry "Flex booking cancelled" changed_by registry
  update_flex_booking id (λ b. record b { deleted_at = some env.now })
  delete_registry env registry
