-- ===== src/Rates/Recalculate.antt =====
-- The recalculation of the commissions that are still PENDING, booking by booking.
use mathlib.Core.Option
use deptoflex_back.Prelude.{
  Bool, List, Option, [], exists, find_first, find_many, is_none, is_some, length, none, some, true,
  update_many, ℕ, ◌&&◌, ◌===◌, ◌==?◌, ◌==◌, ◌||◌, ◌∷◌,
}
use deptoflex_back.Store.{
  Booking, BookingSource, Commission, CommissionStatus, Db, Env, FlexBooking, booking_source_enum,
  commission_status_enum,
}
use deptoflex_back.Rates.Resolve.{commission_amount, resolve_flex_rate, resolve_temporal_rate}

-- `where: { id: undefined }` asks for nothing.
abbrev pub matches : Option ℕ → Option ℕ → Bool
matches none column = true
matches (some id) column = column ==? id

-- `commission: { status: PENDING }`, over the relation
unfoldable pub has_pending_commission : Db → ℕ → Bool
has_pending_commission s booking_id =
    exists (λ c. c.booking_id == booking_id && c.status === CommissionStatus.pending) s.commissions

-- `pendingFlexBookings`
unfoldable pub pending_flex_bookings : Db → Option ℕ → Option ℕ → List Booking
pending_flex_bookings s property_flex_id profile =
    find_many
      (λ b.
        is_some b.property_flex_id
        && matches property_flex_id b.property_flex_id
        && matches profile b.professional_profile_id
        && has_pending_commission s b.id)
      s.bookings

-- `pendingTemporalBookings`
unfoldable pub pending_temporal_bookings : Db → Option ℕ → Option ℕ → List Booking
pending_temporal_bookings s property_id profile =
    find_many
      (λ b.
        is_some b.property_id
        && is_none b.property_flex_id
        && (b.source === BookingSource.cloudbeds || b.source === BookingSource.direct)
        && matches property_id b.property_id
        && matches profile b.professional_profile_id
        && has_pending_commission s b.id)
      s.bookings

-- The `where` and `data` of both recalculations.
unfoldable pub is_pending_of : ℕ → Commission → Bool
is_pending_of booking_id c = c.booking_id == booking_id && c.status === CommissionStatus.pending

unfoldable pub reprice : Env → ℕ → ℕ → Commission → Commission
reprice env rate amount c = record c {
  rate = rate;
  base_amount = amount;
  commission_amount = commission_amount env amount rate;
}

abbrev pub reprice_booking : Env → ℕ → ℕ → ℕ → Db → Db
reprice_booking env booking_id rate amount s = record s {
  commissions = update_many (is_pending_of booking_id) (reprice env rate amount) s.commissions;
}

-- The flex booking of a booking, if it has one.
unfoldable pub flex_booking_of : Db → Booking → Option FlexBooking
flex_booking_of s b =
    Option.bind b.flex_booking_id (λ id. find_first (λ f. f.id == id) s.flex_bookings)

-- `recalculateBookingCommission`, by the booking's property and its flex booking
abbrev pub recalculate_flex : Env → Booking → Option ℕ → Option FlexBooking → Db → Db
recalculate_flex env b none flex_booking s = s
recalculate_flex env b (some property_id) none s = s
recalculate_flex env b (some property_id) (some flex_booking) s =
    reprice_booking env b.id (resolve_flex_rate s property_id b.professional_profile_id)
      flex_booking.monthly_amount s

unfoldable pub recalculate_booking_commission : Env → Booking → Db → Db
unfolding is_pending_of reprice flex_booking_of
recalculate_booking_commission env b s =
    recalculate_flex env b b.property_flex_id (flex_booking_of s b) s

-- `recalculateTemporalBookingCommission`
abbrev pub recalculate_temporal : Env → Booking → Option ℕ → Db → Db
recalculate_temporal env b none s = s
recalculate_temporal env b (some property_id) s =
    reprice_booking env b.id (resolve_temporal_rate s property_id b.professional_profile_id)
      b.total_amount s

unfoldable pub recalculate_temporal_booking_commission : Env → Booking → Db → Db
unfolding is_pending_of reprice
recalculate_temporal_booking_commission env b s = recalculate_temporal env b b.property_id s

-- `for (const booking of bookings) …`
unfoldable pub recalculate_each : (Booking → Db → Db) → List Booking → Db → Db
recalculate_each f [] s = s
recalculate_each f (b ∷ bs) s = recalculate_each f bs (f b s)

-- `recalculateForPropertyFlex`
unfoldable pub recalculate_for_property_flex : Env → ℕ → Db → Db
recalculate_for_property_flex env property_flex_id s =
    recalculate_each (recalculate_booking_commission env)
      (pending_flex_bookings s (some property_flex_id) none) s

-- `recalculateForOverride`
unfoldable pub recalculate_for_override : Env → ℕ → ℕ → Db → Db
recalculate_for_override env property_flex_id profile s =
    recalculate_each (recalculate_booking_commission env)
      (pending_flex_bookings s (some property_flex_id) (some profile)) s

-- `recalculateForTemporalProperty`
unfoldable pub recalculate_for_temporal_property : Env → ℕ → Db → Db
recalculate_for_temporal_property env property_id s =
    recalculate_each (recalculate_temporal_booking_commission env)
      (pending_temporal_bookings s (some property_id) none) s

-- `recalculateForTemporalOverride`
unfoldable pub recalculate_for_temporal_override : Env → ℕ → ℕ → Db → Db
recalculate_for_temporal_override env property_id profile s =
    recalculate_each (recalculate_temporal_booking_commission env)
      (pending_temporal_bookings s (some property_id) (some profile)) s

abbrev pub recalculate_both : Env → Db → List Booking → List Booking → Db
recalculate_both env s flex_list temporal =
    recalculate_each (recalculate_temporal_booking_commission env) temporal
      (recalculate_each (recalculate_booking_commission env) flex_list s)

-- `recalculateForAmbassador`: both lists are read before anything is written.
unfoldable pub recalculate_for_ambassador : Env → ℕ → Db → Db
recalculate_for_ambassador env profile s =
    recalculate_both env s (pending_flex_bookings s none (some profile))
      (pending_temporal_bookings s none (some profile))

-- `recalculateAllPending`, with the numbers that it reports
unfoldable pub recalculate_all_pending : Env → Db → (ℕ × ℕ) × Db
recalculate_all_pending env s =
    let flex_list = pending_flex_bookings s none none in
    let temporal = pending_temporal_bookings s none none in
    ((length flex_list, length temporal), recalculate_both env s flex_list temporal)
