-- ===== src/Payments/Notification.antt =====
-- What a notification of Mercado Pago about one payment does.
use deptoflex_back.Payments.Rows.{
  MercadoPago, MpPayment, MpStatus, amount_due, has_mp_id, is_pending_payment, latest,
  mp_status_enum, update_payments,
}
use deptoflex_back.FlexBookings.{confirm_from_payment, distance, live_flex_booking}
use deptoflex_back.Payments.Checkout.{set_payment_status}
use deptoflex_back.Prelude.{
  Bool, List, Option, create, exists, find_first, find_many, has_some_text, if◌then◌else◌, is_none,
  is_some, length, ltb, map, none, not, some, ℕ, ◌&&◌, ◌===◌, ◌==◌, ◌||◌,
}
use deptoflex_back.Store.{
  Action, Db, Env, FlexBooking, FlexBookingStatus, Message, Payment, PaymentStatus, branch,
  database, flex_booking_status_enum, gets, modify, or_throw, payment_status_enum, pure, remote,
  send, throw_if, transaction, when, ◌>>=◌, ◌>>◌,
}

-- `mapMpStatus`
unfoldable pub map_mp_status : MpStatus → Option PaymentStatus
map_mp_status MpStatus.rejected = some PaymentStatus.rejected
map_mp_status MpStatus.cancelled = some PaymentStatus.cancelled
map_mp_status MpStatus.refunded = some PaymentStatus.refunded
map_mp_status MpStatus.charged_back = some PaymentStatus.refunded
map_mp_status MpStatus.pending = some PaymentStatus.pending
map_mp_status MpStatus.in_process = some PaymentStatus.pending
map_mp_status MpStatus.approved = none
map_mp_status MpStatus.other = none

-- The `data` of an approval.
unfoldable pub approve_payment : ℕ → ℕ → Payment → Payment
approve_payment now mp_payment_id p = record p {
  status = PaymentStatus.approved;
  mp_payment_id = some mp_payment_id;
  paid_at = some now;
}

unfoldable pub approved_row : Env → FlexBooking → MpPayment → List Payment → Payment
approved_row env b payment rows = record {
  id = env.fresh (map (λ p. p.id) rows);
  flex_booking_id = b.id;
  status = PaymentStatus.approved;
  amount = if ltb 0 (amount_due b) then amount_due b else payment.transaction_amount;
  currency = b.currency;
  mp_preference_id = none;
  mp_payment_id = some payment.id;
  checkout_url = none;
  paid_at = some env.now;
  created_at = env.now;
}

-- The transaction of `confirmApprovedPayment`, by the pending payment that it found. The column
-- `mpPaymentId` is unique.
unfoldable pub record_approval : Env → FlexBooking → MpPayment → Option Payment → Action (Unit {0})
unfolding approve_payment approved_row
record_approval env b payment (some pending_row) = do
  clash ←
      gets (λ s. exists (λ p. has_mp_id payment.id p && not (p.id == pending_row.id)) s.payments)
  throw_if clash database
  update_payments (λ p. p.id == pending_row.id) (approve_payment env.now payment.id)
record_approval env b payment none = do
  clash ← gets (λ s. exists (has_mp_id payment.id) s.payments)
  throw_if clash database
  row ← gets (λ s. approved_row env b payment s.payments)
  modify λ s. record s { payments = create row s.payments }

-- `expectedAmount > 0 && Math.abs(payment.transactionAmount - expectedAmount) > 1`, in cents
unfoldable pub amount_mismatch : FlexBooking → MpPayment → Bool
amount_mismatch b payment =
    ltb 0 (amount_due b) && ltb 100 (distance payment.transaction_amount (amount_due b))

abbrev pub mail_confirmed : Option FlexBooking → Action (Unit {0})
mail_confirmed none = pure tt
mail_confirmed (some b) =
    when (has_some_text b.client_email) (send (Message.reservation_confirmed_mail b.id))

-- `confirmApprovedPayment`, for a booking that was found
unfoldable pub confirm_approved_booking : Env → FlexBooking → MpPayment → Action (Unit {0})
unfolding record_approval amount_mismatch
confirm_approved_booking env b payment =
    branch (b.status === FlexBookingStatus.confirmed)
      (update_payments (has_mp_id payment.id)
        (λ p. record p { status = PaymentStatus.approved; paid_at = some env.now }))
      (when (not (amount_mismatch b payment)) do
        transaction do
          pending_row ← gets (λ s. latest (is_pending_payment b.id) s.payments)
          record_approval env b payment pending_row
        confirm_from_payment env b.id
        confirmed ← gets (λ s. find_first (live_flex_booking b.id) s.flex_bookings)
        mail_confirmed confirmed)

abbrev pub confirm_found : Env → Option FlexBooking → MpPayment → Action (Unit {0})
confirm_found env none payment = pure tt
confirm_found env (some b) payment = confirm_approved_booking env b payment

-- `confirmApprovedPayment`, by the payment's reference
unfoldable pub confirm_approved_payment : Env → MpPayment → Option ℕ → Action (Unit {0})
unfolding confirm_approved_booking
confirm_approved_payment env payment none = pure tt
confirm_approved_payment env payment (some flex_booking_id) = do
  booking ← gets (λ s. find_first (live_flex_booking flex_booking_id) s.flex_bookings)
  confirm_found env booking payment

-- `handleRefundedPayment`
unfoldable pub handle_refunded_payment : MpPayment → Action (Unit {0})
handle_refunded_payment payment =
    when (is_some payment.external_reference)
      (update_payments (has_mp_id payment.id) (set_payment_status PaymentStatus.refunded))

-- The rows that another status is written to.
unfoldable pub is_unlinked : ℕ → Payment → Bool
unfolding is_pending_payment
is_unlinked flex_booking_id p = is_pending_payment flex_booking_id p && is_none p.mp_payment_id

-- Writing one payment id to these rows would break the unique column.
unfoldable pub link_clashes : ℕ → ℕ → Db → Bool
link_clashes flex_booking_id mp_payment_id s =
    let rows = length (find_many (is_unlinked flex_booking_id) s.payments) in
    ltb 1 rows || (rows == 1 && exists (has_mp_id mp_payment_id) s.payments)

-- The last part of `processPaymentNotification`: any other status, for a known reference.
abbrev pub link_status : MpPayment → Option ℕ → Option PaymentStatus → Action (Unit {0})
link_status payment none status = pure tt
link_status payment (some flex_booking_id) none = pure tt
link_status payment (some flex_booking_id) (some status) = do
  throw_if (← gets (link_clashes flex_booking_id payment.id)) database
  update_payments (is_unlinked flex_booking_id)
      (λ p. record p { mp_payment_id = some payment.id; status = status })

-- `processPaymentNotification`, for the payment that Mercado Pago described
unfoldable pub process_payment : Env → MpPayment → Action (Unit {0})
unfolding handle_refunded_payment map_mp_status link_clashes
process_payment env payment =
    branch (payment.status === MpStatus.approved)
      (confirm_approved_payment env payment payment.external_reference)
      (branch (payment.status === MpStatus.refunded || payment.status === MpStatus.charged_back)
        (handle_refunded_payment payment)
        (link_status payment payment.external_reference (map_mp_status payment.status)))

-- `processPaymentNotification`
unfoldable pub process_payment_notification : Env → MercadoPago → ℕ → Action (Unit {0})
unfolding process_payment
process_payment_notification env mp mp_payment_id = do
  payment ← or_throw (mp.get_payment mp_payment_id) remote
  process_payment env payment
