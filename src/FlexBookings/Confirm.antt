-- ===== src/FlexBookings/Confirm.antt =====
-- `findOne` and `confirmFromPayment`: a flex booking is confirmed by the payment of its reservation.
use deptoflex_back.Prelude.{
  Bool, Option, find_first, is_none, none, not, some, ℕ, ◌&&◌, ◌===◌, ◌==?◌, ◌==◌,
}
use deptoflex_back.Store.{
  Action, Booking, BookingStatus, Db, Env, FlexBooking, FlexBookingStatus, Message, add_history,
  bad_request, booking_status_enum, branch, flex_booking_status_enum, gets, not_found, or_throw,
  pure, send, set_flex_status, set_status, throw_if, transaction, update_booking,
  update_flex_booking, when, ◌>>=◌, ◌>>◌,
}
use deptoflex_back.Workflow.{approve_on_flex_booking_confirmed}

unfoldable pub live_flex_booking : ℕ → FlexBooking → Bool
live_flex_booking id b = b.id == id && is_none b.deleted_at

-- `findOne`
unfoldable pub find_flex_booking : ℕ → Action FlexBooking
unfolding live_flex_booking
find_flex_booking id = do
  booking ← gets (λ s. find_first (live_flex_booking id) s.flex_bookings)
  or_throw booking not_found

-- `booking.findUnique({ where: { flexBookingId } })`
unfoldable pub registry_row : ℕ → Db → Option Booking
registry_row flex_booking_id s = find_first (λ b. b.flex_booking_id ==? flex_booking_id) s.bookings

-- The part of the transaction that concerns the registry; it returns whether the registry's row
-- was confirmed now. The reason's text leaves out the payment's id, which follows in brackets.
unfoldable pub confirm_registry : Env → Option Booking → Action (Option ℕ)
confirm_registry env none = pure none
confirm_registry env (some registry) =
    branch (registry.status === BookingStatus.confirmed) (pure none) do
      update_booking registry.id (set_status BookingStatus.confirmed)
      add_history registry.id (some registry.status) BookingStatus.confirmed
          (some "Mercado Pago payment approved") none
      approve_on_flex_booking_confirmed env registry.id
      pure (some registry.id)

unfoldable pub notify_paid : Option ℕ → Action (Unit {0})
notify_paid none = pure tt
notify_paid (some booking_id) = send (Message.flex_reservation_paid booking_id)

-- `confirmFromPayment`
unfoldable pub confirm_from_payment : Env → ℕ → Action (Unit {0})
unfolding find_flex_booking registry_row confirm_registry notify_paid
confirm_from_payment env id = do
  existing ← find_flex_booking id
  when (not (existing.status === FlexBookingStatus.confirmed)) do
    throw_if (existing.status === FlexBookingStatus.cancelled) bad_request
    confirmed_booking_id ← transaction do
      update_flex_booking id (set_flex_status FlexBookingStatus.confirmed)
      registry ← gets (registry_row id)
      confirm_registry env registry
    notify_paid confirmed_booking_id
