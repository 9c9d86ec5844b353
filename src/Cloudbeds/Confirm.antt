-- ===== src/Cloudbeds/Confirm.antt =====
-- `ReservationIntentsService.confirmFromCloudbeds`, and the later states of an intent.
use mathlib.Core.Option
use deptoflex_back.Cloudbeds.Intents.{
  ConfirmReservation, Reservation, cloudbeds_booking, intent_of, is_taken, resolve_property,
  resolve_unit,
}
use deptoflex_back.Cloudbeds.Provider.{BookingProvider, Confirmation}
use deptoflex_back.Prelude.{
  Option, create, exists, find_first, ltb, map, none, not, some, update_many, ℕ, ◌&&◌, ◌===◌, ◌==?◌,
  ◌==◌, ◌or_else◌,
}
use deptoflex_back.Rates.{commission_amount, resolve_temporal_rate}
use deptoflex_back.Store.{
  Action, Booking, BookingStatus, CommissionStatus, Db, Env, IntentStatus, Message,
  ReservationIntent, add_commission, add_history, bad_request, booking_status_enum,
  commission_status_enum, database, gets, intent_status_enum, modify, or_throw, pure, remote, send,
  throw_if, transaction, ◌>>=◌, ◌>>◌,
}

-- `createCommission`
unfoldable pub create_cloudbeds_commission : Env → Booking → ℕ → Option ℕ → Action (Unit {0})
create_cloudbeds_commission env b property none = pure tt
create_cloudbeds_commission env b property (some profile) = do
  rate ← gets (λ s. resolve_temporal_rate s property (some profile))
  commission_id ← gets (λ s. env.fresh (map (λ c. c.id) s.commissions))
  add_commission (record {
    id = commission_id;
    booking_id = b.id;
    professional_profile_id = some profile;
    settlement_id = none;
    rate = rate;
    base_amount = b.total_amount;
    commission_amount = commission_amount env b.total_amount rate;
    currency = b.currency;
    status = CommissionStatus.pending;
    approved_at = none;
    paid_at = none;
  })

abbrev pub set_intent_status : IntentStatus → ReservationIntent → ReservationIntent
set_intent_status t i = record i { status = t }

-- `if (intent) { await tx.reservationIntent.update(…) }`
unfoldable pub confirm_intent : Option ReservationIntent → Action (Unit {0})
confirm_intent none = pure tt
confirm_intent (some i) = do
  throw_if (not (← gets (λ s. exists (λ j. j.id == i.id) s.reservation_intents))) database
  modify λ s. record s {
    reservation_intents =
        update_many (λ j. j.id == i.id) (set_intent_status IntentStatus.confirmed)
          s.reservation_intents;
  }

-- The transaction of `confirmFromCloudbeds`
unfoldable pub register_reservation : Env → Reservation → Action ℕ
unfolding is_taken cloudbeds_booking create_cloudbeds_commission confirm_intent
register_reservation env r = transaction do
  throw_if (← gets (is_taken (λ b. b.reservation_intent_id) (Option.map (λ i. i.id) r.intent)))
      database
  throw_if (← gets (is_taken (λ b. b.cloudbeds_reservation_id) r.conf.reservation_id)) database
  booking ← gets (λ s. cloudbeds_booking env r s.bookings)
  modify λ s. record s { bookings = create booking s.bookings }
  add_history booking.id none BookingStatus.confirmed (some "Cloudbeds confirmation") none
  create_cloudbeds_commission env booking r.property_id r.professional_profile_id
  confirm_intent r.intent
  pure booking.id

unfoldable pub reservation_of :
    ConfirmReservation
    → Option ReservationIntent
    → Confirmation
    → ℕ
    → Option ℕ
    → ℕ
    → ℕ
    → Reservation
reservation_of dto intent conf property unit check_in check_out = record {
  intent = intent;
  conf = conf;
  property_id = property;
  unit_id = unit;
  professional_profile_id =
      dto.professional_profile_id or_else Option.bind intent (λ i. i.professional_profile_id);
  check_in = check_in;
  check_out = check_out;
}

-- What follows where the reservation is not registered yet
unfoldable pub register_new :
    Env → ConfirmReservation → Option ReservationIntent → Confirmation → ℕ → Action ℕ
unfolding resolve_unit reservation_of register_reservation
register_new env dto intent conf property = do
  check_in ← or_throw (elim intent [ none ↦ conf.checkin | some i ↦ some i.checkin ]) bad_request
  check_out ← or_throw (elim intent [ none ↦ conf.checkout | some i ↦ some i.checkout ]) bad_request
  unit ←
      gets
        (resolve_unit property (conf.room_type_id or_else Option.map (λ i. i.room_type_id) intent))
  id ← register_reservation env (reservation_of dto intent conf property unit check_in check_out)
  send (Message.booking_confirmed id)
  pure id

-- The booking that has the engine's reservation already
abbrev pub registered_booking : Option ℕ → Db → Option Booking
registered_booking none s = none
registered_booking (some id) s = find_first (λ b. b.cloudbeds_reservation_id ==? id) s.bookings

unfoldable pub register_once :
    Env
    → ConfirmReservation
    → Option ReservationIntent
    → Confirmation
    → ℕ
    → Option Booking
    → Action ℕ
unfolding register_new
register_once env dto intent conf property (some existing) = pure existing.id
register_once env dto intent conf property none = register_new env dto intent conf property

-- `confirmFromCloudbeds`, which answers with the booking
unfoldable pub confirm_from_cloudbeds : Env → BookingProvider → ConfirmReservation → Action ℕ
unfolding intent_of resolve_property register_once
confirm_from_cloudbeds env engine dto = do
  intent ← intent_of dto.reservation_intent_id
  conf ← or_throw (engine.get_confirmation dto.data_res) remote
  property ← gets (resolve_property intent conf)
  property ← or_throw property bad_request
  existing ← gets (registered_booking conf.reservation_id)
  register_once env dto intent conf property existing

abbrev pub redirect : Env → ReservationIntent → ReservationIntent
redirect env i = record i { status = IntentStatus.redirected; redirected_at = some env.now }

-- `markRedirected`
unfoldable pub mark_redirected : Env → ℕ → Action (Unit {0})
mark_redirected env id = modify λ s. record s {
  reservation_intents =
      update_many (λ i. i.id == id && i.status === IntentStatus.pending) (redirect env)
        s.reservation_intents;
}

-- `expirePendingIntents`
unfoldable pub expire_pending_intents : Env → Action (Unit {0})
expire_pending_intents env = modify λ s. record s {
  reservation_intents =
      update_many (λ i. i.status === IntentStatus.pending && ltb i.expires_at env.now)
        (set_intent_status IntentStatus.expired) s.reservation_intents;
}
