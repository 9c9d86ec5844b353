-- ===== src/Store/Tables.antt =====
-- The calls of the Prisma client that the services share. An `update` throws when no row has the
-- id, and a `create` throws when the value of a unique column is taken.
use deptoflex_back.Prelude.{
  Bool, Option, String, create, exists, if◌then◌else◌, none, some, update_many, ℕ, ◌==◌,
}
use deptoflex_back.Store.Status.{BookingStatus, CommissionStatus, FlexBookingStatus}
use deptoflex_back.Store.Rows.{Actor, Booking, Commission, FlexBooking, StatusHistory}
use deptoflex_back.Store.Monad.{Action, database, err, modify, ok, throw}

-- `tx.booking.update({ where: { id }, data })`
unfoldable pub update_booking : ℕ → (Booking → Booking) → Action (Unit {0})
update_booking id f s =
    if exists (λ b. b.id == id) s.bookings
    then (ok tt, record s { bookings = update_many (λ b. b.id == id) f s.bookings })
    else (err database, s)

-- `tx.flexBooking.update({ where: { id }, data })`
unfoldable pub update_flex_booking : ℕ → (FlexBooking → FlexBooking) → Action (Unit {0})
update_flex_booking id f s =
    if exists (λ b. b.id == id) s.flex_bookings
    then (ok tt, record s { flex_bookings = update_many (λ b. b.id == id) f s.flex_bookings })
    else (err database, s)

-- `tx.bookingStatusHistory.create({ data })`: the column of the actor holds a uuid, so the text
-- `system` is refused.
unfoldable pub write_history : StatusHistory → Action (Unit {0})
write_history h = modify λ s. record s { status_history = create h s.status_history }

abbrev pub history_row :
    ℕ → Option BookingStatus → BookingStatus → Option String → Option Actor → StatusHistory
history_row id from to reason actor = record {
  booking_id = id;
  from_status = from;
  to_status = to;
  reason = reason;
  changed_by = actor;
}

unfoldable pub add_history :
    ℕ → Option BookingStatus → BookingStatus → Option String → Option Actor → Action (Unit {0})
unfolding write_history
add_history id from to reason none = write_history (history_row id from to reason none)
add_history id from to reason (some Actor.system) = throw database
add_history id from to reason (some (Actor.user u)) =
    write_history (history_row id from to reason (some (Actor.user u)))

-- `tx.commission.create({ data })`: a booking has one commission.
unfoldable pub add_commission : Commission → Action (Unit {0})
add_commission c s =
    if exists (λ d. d.booking_id == c.booking_id) s.commissions
    then (err database, s)
    else (ok tt, record s { commissions = create c s.commissions })

-- `tx.commission.updateMany({ where, data })`
unfoldable pub update_commissions :
    (Commission → Bool) → (Commission → Commission) → Action (Unit {0})
update_commissions p f = modify λ s. record s { commissions = update_many p f s.commissions }

abbrev pub set_status : BookingStatus → Booking → Booking
set_status t b = record b { status = t }

abbrev pub set_flex_status : FlexBookingStatus → FlexBooking → FlexBooking
set_flex_status t b = record b { status = t }

abbrev pub set_commission_status : CommissionStatus → Commission → Commission
set_commission_status t c = record c { status = t }
