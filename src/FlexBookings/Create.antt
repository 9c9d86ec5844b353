-- ===== src/FlexBookings/Create.antt =====
-- `create`: a flex reservation with its row in the registry, its history and its commission.
use deptoflex_back.Prelude.{
  Bool, List, Option, String, create, date_of, exists, false, has_some_text, if◌then◌else◌, is_none,
  is_some, leb, ltb, map, max, none, not, some, ℕ, ◌&&◌, ◌+◌, ◌-◌, ◌===◌, ◌==?◌, ◌==◌, ◌||◌,
}
use deptoflex_back.Store.{
  Action, Booking, BookingSource, BookingStatus, Commission, CommissionStatus, Env, FlexBooking,
  FlexBookingStatus, Message, add_commission, add_history, bad_request, booking_source_enum,
  booking_status_enum, branch, commission_status_enum, database, flex_booking_status_enum,
  forbidden, gets, modify, not_found, pure, send, throw, throw_if, transaction, when, ◌>>=◌, ◌>>◌,
}
use deptoflex_back.Access.{CurrentUser, assert_can_operate_as_ambassador, is_staff}
use deptoflex_back.Rates.{commission_amount, live_flex, resolve_flex_rate}
use deptoflex_back.Pricing.{PricingQuote, quote}
use deptoflex_back.Bookings.{nights}

-- `CreateFlexBookingDto`, its dates parsed
pub record CreateFlexBooking : Type 0 where
  pub property_flex_id : ℕ
  pub professional_profile_id : Option ℕ
  pub pricing_plan_id : Option ℕ
  pub client_name : String
  pub client_email : Option String
  pub client_phone : Option String
  pub start_date : ℕ
  pub end_date : ℕ
  pub total_months : ℕ
  pub monthly_amount : ℕ
  pub total_amount : ℕ
  pub notes : Option String

-- The `where` of the conflict query: a stay of the same property that is not cancelled and overlaps.
unfoldable pub overlaps : ℕ → ℕ → ℕ → FlexBooking → Bool
overlaps property_flex_id start end b =
    b.property_flex_id == property_flex_id
    && is_none b.deleted_at
    && not (b.status === FlexBookingStatus.cancelled)
    && ltb b.start_date end
    && ltb start b.end_date

-- `Math.abs(a - b)`
unfoldable pub distance : ℕ → ℕ → ℕ
distance a b = (a - b) + (b - a)

-- The amounts of the request may differ from the quote by one unit of the currency, 100 cents.
unfoldable pub amounts_differ : CreateFlexBooking → PricingQuote → Bool
unfolding distance
amounts_differ dto q =
    ltb 100 (distance dto.monthly_amount q.monthly_rent)
    || ltb 100 (distance dto.total_amount q.total_amount)

-- The profile that the reservation is for: staff may name one, others reserve for themselves.
unfoldable pub profile_for : CreateFlexBooking → Option CurrentUser → Action (Option ℕ)
profile_for dto none = throw forbidden
profile_for dto (some u) =
    branch (is_staff u) (pure dto.professional_profile_id)
      do profile ← assert_can_operate_as_ambassador u.id; pure (some profile)

unfoldable pub payment_token_for : Env → ℕ → Option ℕ
payment_token_for env amount = if ltb 0 amount then some env.payment_token else none

-- `data` of `tx.flexBooking.create`
unfoldable pub new_flex_booking :
    Env → CreateFlexBooking → PricingQuote → Option ℕ → List FlexBooking → FlexBooking
unfolding payment_token_for
new_flex_booking env dto q profile rows = record {
  id = env.fresh (map (λ b. b.id) rows);
  property_flex_id = dto.property_flex_id;
  professional_profile_id = profile;
  client_name = dto.client_name;
  client_email = dto.client_email;
  client_phone = dto.client_phone;
  start_date = date_of dto.start_date;
  end_date = date_of dto.end_date;
  total_months = dto.total_months;
  monthly_amount = q.monthly_rent;
  total_amount = q.total_amount;
  deposit_amount = some q.deposit_amount;
  pricing_plan_id = q.pricing_plan_id;
  plan_code = q.plan_code;
  entry_commission_amount = some q.entry_commission_amount;
  reservation_payment_amount =
      if ltb 0 q.reservation_payment_amount then some q.reservation_payment_amount else none;
  payment_token = payment_token_for env q.reservation_payment_amount;
  currency = q.currency;
  status = FlexBookingStatus.pending;
  notes = dto.notes;
  deleted_at = none;
}

-- `data` of `tx.booking.create`
unfoldable pub registry_of : Env → CreateFlexBooking → FlexBooking → List Booking → Booking
registry_of env dto f rows = record {
  id = env.fresh (map (λ b. b.id) rows);
  source = BookingSource.flex;
  lead_id = none;
  unit_id = none;
  property_id = none;
  property_flex_id = some dto.property_flex_id;
  flex_booking_id = some f.id;
  reservation_intent_id = none;
  cloudbeds_reservation_id = none;
  professional_profile_id = f.professional_profile_id;
  client_name = dto.client_name;
  client_email = dto.client_email;
  client_phone = dto.client_phone;
  check_in_date = date_of dto.start_date;
  check_out_date = date_of dto.end_date;
  adults = 1;
  children = 0;
  total_nights = max 1 (nights dto.start_date dto.end_date);
  base_amount = f.total_amount;
  total_amount = f.total_amount;
  currency = f.currency;
  status = BookingStatus.pending;
  notes = dto.notes;
  deleted_at = none;
}

-- `data` of `tx.commission.create`
unfoldable pub flex_commission : Env → ℕ → ℕ → FlexBooking → List Commission → Commission
flex_commission env rate booking_id f rows = record {
  id = env.fresh (map (λ c. c.id) rows);
  booking_id = booking_id;
  professional_profile_id = f.professional_profile_id;
  settlement_id = none;
  rate = rate;
  base_amount = f.monthly_amount;
  commission_amount = commission_amount env f.monthly_amount rate;
  currency = f.currency;
  status = CommissionStatus.pending;
  approved_at = none;
  paid_at = none;
}

-- The column `paymentToken` is unique.
unfoldable pub token_is_taken : Option ℕ → List FlexBooking → Bool
token_is_taken none rows = false
token_is_taken (some token) rows = exists (λ b. b.payment_token ==? token) rows

-- The transaction of `create`, which returns the flex booking and the id of its registry row.
unfoldable pub register :
    Env → CreateFlexBooking → PricingQuote → Option ℕ → Action (FlexBooking × ℕ)
unfolding new_flex_booking registry_of flex_commission token_is_taken
register env dto q profile = transaction do
  flex_booking ← gets (λ s. new_flex_booking env dto q profile s.flex_bookings)
  throw_if (← gets (λ s. token_is_taken flex_booking.payment_token s.flex_bookings)) database
  modify λ s. record s { flex_bookings = create flex_booking s.flex_bookings }
  booking ← gets (λ s. registry_of env dto flex_booking s.bookings)
  modify λ s. record s { bookings = create booking s.bookings }
  add_history booking.id none BookingStatus.pending (some "Flex booking created") none
  rate ← gets (λ s. resolve_flex_rate s dto.property_flex_id profile)
  commission ← gets (λ s. flex_commission env rate booking.id flex_booking s.commissions)
  add_commission commission
  pure (flex_booking, booking.id)

-- `create`
unfoldable pub create_flex_booking :
    Env → CreateFlexBooking → Option CurrentUser → Action FlexBooking
unfolding overlaps amounts_differ profile_for register
create_flex_booking env dto user = do
  throw_if (not (← gets (λ s. exists (live_flex dto.property_flex_id) s.property_flexes))) not_found
  throw_if (leb dto.end_date dto.start_date) bad_request
  taken ← gets (λ s.
      exists (overlaps dto.property_flex_id (date_of dto.start_date) (date_of dto.end_date))
        s.flex_bookings)
  throw_if taken bad_request
  q ← quote env dto.property_flex_id dto.total_months dto.pricing_plan_id
  throw_if (amounts_differ dto q) bad_request
  profile ← profile_for dto user
  (flex_booking, booking_id) ← register env dto q profile
  send (Message.booking_created booking_id)
  when
      (ltb 0 q.reservation_payment_amount
        && is_some flex_booking.payment_token
        && has_some_text dto.client_email)
      (send (Message.payment_required flex_booking.id q.reservation_payment_amount))
  pure flex_booking
