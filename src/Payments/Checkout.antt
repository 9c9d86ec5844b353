-- ===== src/Payments/Checkout.antt =====
-- `createPublicCheckout` and `getPublicPaymentPage`: the guest's way to pay.
use deptoflex_back.Payments.Rows.{
  MercadoPago, MpCheckout, amount_due, expiration_cutoff, is_approved_payment, is_pending_payment,
  is_reusable, latest, live_by_token, update_payments,
}
use deptoflex_back.Access.{CurrentUser, is_staff}
use deptoflex_back.FlexBookings.{find_flex_booking}
use deptoflex_back.Prelude.{
  Bool, List, Option, String, create, exists, false, find_first, has_some_text, is_none, map, none,
  not, some, true, ℕ, ◌&&◌, ◌===◌, ◌==?◌, ◌==◌, ◌||◌,
}
use deptoflex_back.Store.{
  Action, Db, Env, FlexBooking, FlexBookingStatus, Message, Payment, PaymentStatus,
  ProfessionalProfile, bad_request, branch, flex_booking_status_enum, forbidden, gets, modify,
  not_found, or_throw, payment_status_enum, pure, remote, send, throw_if, unavailable, ◌>>=◌, ◌>>◌,
}

abbrev pub find_by_token : ℕ → Action FlexBooking
find_by_token token = do
  booking ← gets (λ s. find_first (live_by_token token) s.flex_bookings)
  or_throw booking not_found

unfoldable pub new_payment : Env → FlexBooking → ℕ → MpCheckout → List Payment → Payment
new_payment env b amount checkout rows = record {
  id = env.fresh (map (λ p. p.id) rows);
  flex_booking_id = b.id;
  status = PaymentStatus.pending;
  amount = amount;
  currency = b.currency;
  mp_preference_id = some checkout.preference_id;
  mp_payment_id = none;
  checkout_url = some checkout.checkout_url;
  paid_at = none;
  created_at = env.now;
}

abbrev pub set_payment_status : PaymentStatus → Payment → Payment
set_payment_status status p = record p { status = status }

-- The url of a payment that may be missing.
abbrev pub url_of : Option Payment → Option String
url_of none = none
url_of (some p) = p.checkout_url

-- The part that opens a new checkout: older ones are cancelled first.
unfoldable pub open_checkout : Env → MercadoPago → FlexBooking → Action String
unfolding new_payment update_payments
open_checkout env mp b = do
  update_payments (is_pending_payment b.id) (set_payment_status PaymentStatus.cancelled)
  checkout ← or_throw (mp.create_checkout b (amount_due b)) remote
  payment ← gets (λ s. new_payment env b (amount_due b) checkout s.payments)
  modify λ s. record s { payments = create payment s.payments }
  pure checkout.checkout_url

abbrev pub reuse_or : Option String → Action String → Action String
reuse_or none m = m
reuse_or (some url) m = pure url

-- `createPublicCheckout`
unfoldable pub create_public_checkout : Env → MercadoPago → ℕ → Action String
unfolding open_checkout
create_public_checkout env mp token = do
  throw_if (not mp.is_configured) unavailable
  booking ← find_by_token token
  throw_if (booking.status === FlexBookingStatus.confirmed) bad_request
  throw_if (booking.status === FlexBookingStatus.cancelled) bad_request
  throw_if (amount_due booking == 0) bad_request
  throw_if (← gets (λ s. exists (is_approved_payment booking.id) s.payments)) bad_request
  reusable ← gets (λ s. latest (is_reusable (expiration_cutoff env mp) booking.id) s.payments)
  reuse_or (url_of reusable) (open_checkout env mp booking)

-- What `getPublicPaymentPage` says of the payment.
pub record PaymentPage : Type 0 where
  pub id : ℕ
  pub status : FlexBookingStatus
  pub reservation_payment_amount : ℕ
  pub is_paid : Bool
  pub pending_checkout_url : Option String
  pub payment_status : Option PaymentStatus

abbrev pub status_of : Option Payment → Option PaymentStatus
status_of none = none
status_of (some p) = some p.status

-- `booking.status === CONFIRMED || booking.payments.length > 0`, over the approved payments
unfoldable pub is_paid : FlexBooking → Db → Bool
is_paid b s =
    b.status === FlexBookingStatus.confirmed || exists (is_approved_payment b.id) s.payments

-- `getPublicPaymentPage`
unfoldable pub get_public_payment_page : Env → MercadoPago → ℕ → Action PaymentPage
unfolding is_paid
get_public_payment_page env mp token = do
  b ← find_by_token token
  gets λ s. record {
    id = b.id;
    status = b.status;
    reservation_payment_amount = amount_due b;
    is_paid = is_paid b s;
    pending_checkout_url = url_of (latest (is_reusable (expiration_cutoff env mp) b.id) s.payments);
    payment_status = status_of (latest (λ p. p.flex_booking_id == b.id) s.payments);
  }

-- `profile && booking.professionalProfileId === profile.id`
abbrev pub owns : Option ProfessionalProfile → FlexBooking → Bool
owns none b = false
owns (some p) b = b.professional_profile_id ==? p.id

-- `getAuthorizedBooking`: staff, or the ambassador whose reservation it is
unfoldable pub get_authorized_booking : ℕ → CurrentUser → Action FlexBooking
get_authorized_booking id user = do
  booking ← find_flex_booking id
  profile ← gets (λ s. find_first (λ p. p.user_id == user.id) s.profiles)
  throw_if (not (is_staff user) && not (owns profile booking)) forbidden
  pure booking

-- The answer of `buildPaymentLinkResponse`, with the token in place of the link that is built of it.
pub record PaymentLink : Type 0 where
  pub requires_payment : Bool
  pub payment_token : Option ℕ
  pub amount : ℕ
  pub currency : String
  pub booking_status : FlexBookingStatus
  pub is_paid : Bool

abbrev pub payment_link : FlexBooking → Bool → Option ℕ → Bool → PaymentLink
payment_link b requires token paid = record {
  requires_payment = requires;
  payment_token = token;
  amount = amount_due b;
  currency = b.currency;
  booking_status = b.status;
  is_paid = paid;
}

-- `getPaymentLinkForBooking`, with `buildPaymentLinkResponse`
unfoldable pub get_payment_link : ℕ → CurrentUser → Action PaymentLink
unfolding get_authorized_booking is_paid
get_payment_link id user = do
  booking ← get_authorized_booking id user
  branch (amount_due booking == 0)
      (pure (payment_link booking false none (booking.status === FlexBookingStatus.confirmed)))
      (do
        token ← or_throw booking.payment_token bad_request
        paid ← gets (is_paid booking)
        pure (payment_link booking true (some token) paid))

-- `resendPaymentEmail`
unfoldable pub resend_payment_email : ℕ → CurrentUser → Action (Unit {0})
unfolding get_authorized_booking is_paid
resend_payment_email id user = do
  booking ← get_authorized_booking id user
  throw_if (amount_due booking == 0) bad_request
  throw_if (is_none booking.payment_token) bad_request
  throw_if (← gets (is_paid booking)) bad_request
  throw_if (not (has_some_text booking.client_email)) bad_request
  send (Message.payment_required booking.id (amount_due booking))
