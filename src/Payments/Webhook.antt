-- ===== src/Payments/Webhook.antt =====
-- Where notifications come from: the webhook, the guest's return, and the job that reconciles.
use deptoflex_back.Payments.Rows.{MercadoPago, MerchantOrder, amount_due}
use deptoflex_back.Payments.Checkout.{PaymentPage, find_by_token, get_public_payment_page}
use deptoflex_back.Payments.Notification.{process_payment_notification}
use deptoflex_back.Prelude.{
  Bool, List, Option, [], create, false, find_first, find_many, if◌then◌else◌, includes, is_none,
  ltb, none, not, some, suc, true, zero, ℕ, ◌&&◌, ◌+◌, ◌===◌, ◌==◌, ◌otherwise◌, ◌∷◌,
}
use deptoflex_back.Store.{
  Action, Db, Env, FlexBooking, FlexBookingStatus, err, flex_booking_status_enum, ok, or_throw,
  pure, remote, throw_if, unavailable, when, ◌>>=◌, ◌>>◌,
}

-- `for (const paymentId of paymentIds) await this.processPaymentNotification(paymentId)`
unfoldable pub process_all : Env → MercadoPago → List ℕ → Action (Unit {0})
process_all env mp [] = pure tt
process_all env mp (id ∷ ids) = process_payment_notification env mp id >> process_all env mp ids

-- `paymentIds.add(id)` on a set that keeps the order of insertion
unfoldable pub add_id : List ℕ → ℕ → List ℕ
add_id ids id = if includes ids id then ids else create id ids

unfoldable pub add_ids : List ℕ → List ℕ → List ℕ
unfolding add_id
add_ids ids [] = ids
add_ids ids (x ∷ xs) = add_ids (add_id ids x) xs

-- The search by reference, and the processing of what it finds.
unfoldable pub process_found : Env → MercadoPago → ℕ → Action (Unit {0})
process_found env mp reference = do
  found ← or_throw (mp.search_payments reference) remote
  process_all env mp found

abbrev pub ids_or_search : Env → MercadoPago → ℕ → List ℕ → Action (Unit {0})
ids_or_search env mp reference [] = process_found env mp reference
ids_or_search env mp reference (id ∷ ids) = process_all env mp (id ∷ ids)

abbrev pub first_ids : Option ℕ → List ℕ
first_ids none = []
first_ids (some id) = id ∷ []

-- `syncBookingPayments`, by the payment and the order that the caller named: without any payment,
-- the reference is searched for, that of the order before the booking's own id.
unfoldable pub sync_booking_payments :
    Env → MercadoPago → ℕ → Option ℕ → Option ℕ → Action (Unit {0})
unfolding process_found add_ids
sync_booking_payments env mp flex_booking_id payment_id none =
    ids_or_search env mp flex_booking_id (first_ids payment_id)
sync_booking_payments env mp flex_booking_id payment_id (some order_id) = do
  order ← or_throw (mp.get_merchant_order order_id) remote
  ids_or_search env mp (order.external_reference otherwise flex_booking_id)
      (add_ids (first_ids payment_id) order.payment_ids)

-- `syncPublicPayment`
unfoldable pub sync_public_payment :
    Env → MercadoPago → ℕ → Option ℕ → Option ℕ → Action PaymentPage
sync_public_payment env mp token payment_id order_id = do
  throw_if (not mp.is_configured) unavailable
  booking ← find_by_token token
  sync_booking_payments env mp booking.id payment_id order_id
  get_public_payment_page env mp token

-- What `processMerchantOrderNotification` does with an order, and where it must ask again.
abbrev pub process_order : Env → MercadoPago → MerchantOrder → Action (Unit {0}) → Action (Unit {0})
process_order env mp order again = elim order.payment_ids [
  | id ∷ ids ↦ process_all env mp (id ∷ ids)
  | [] ↦ elim order.external_reference [
    | some reference ↦ sync_booking_payments env mp reference none none
    | none ↦ again
  ]
]

-- `processMerchantOrderNotification`: an order that says nothing is asked for once more.
unfoldable pub process_merchant_order_notification : Env → MercadoPago → ℕ → Action (Unit {0})
process_merchant_order_notification env mp order_id = do
  order ← or_throw (mp.get_merchant_order order_id) remote
  process_order env mp order do
    retry ← or_throw (mp.get_merchant_order_again order_id) remote
    process_order env mp retry (pure tt)

-- `try { … } catch { log }`
unfoldable pub attempt : Action (Unit {0}) → Action (Unit {0})
attempt m s = (ok tt, (m s).1)

-- The event that `extractMercadoPagoWebhookEvent` found, by its type.
pub data WebhookEvent : Type 0 where
  payment_event : ℕ → WebhookEvent
  merchant_order_event : ℕ → WebhookEvent
  unsupported_event : WebhookEvent

abbrev pub handle_event : Env → MercadoPago → WebhookEvent → Action (Unit {0})
handle_event env mp (payment_event id) = process_payment_notification env mp id
handle_event env mp (merchant_order_event id) = process_merchant_order_notification env mp id
handle_event env mp unsupported_event = pure tt

abbrev pub handle_found_event : Env → MercadoPago → Option WebhookEvent → Action (Unit {0})
handle_found_event env mp none = pure tt
handle_found_event env mp (some event) = attempt (handle_event env mp event)

-- `handleWebhook`, which always answers `{ ok: true }`
unfoldable pub handle_webhook : Env → MercadoPago → Option WebhookEvent → Action (Unit {0})
unfolding attempt
handle_webhook env mp event = when mp.is_configured (handle_found_event env mp event)

unfoldable pub take : {A : Type 0} → ℕ → List A → List A
take zero xs = []
take (suc n) [] = []
take (suc n) (x ∷ xs) = x ∷ take n xs

-- The `where` of `reconcilePendingPayments`.
unfoldable pub awaits_payment : FlexBooking → Bool
awaits_payment b =
    is_none b.deleted_at && b.status === FlexBookingStatus.pending && ltb 0 (amount_due b)

abbrev pub flex_status_of : ℕ → Db → Option FlexBookingStatus
flex_status_of id s = elim (find_first (λ b. b.id == id) s.flex_bookings) [
  | none ↦ none
  | some b ↦ some b.status
]

abbrev pub same_status : Option FlexBookingStatus → Option FlexBookingStatus → Bool
same_status none none = true
same_status none (some b) = false
same_status (some a) none = false
same_status (some a) (some b) = a === b

-- The loop of `reconcilePendingPayments`: a booking that fails does not count, nor stop the loop.
unfoldable pub reconcile_each : Env → MercadoPago → List FlexBooking → ℕ → Db → ℕ × Db
reconcile_each env mp [] processed s = (processed, s)
reconcile_each env mp (b ∷ bs) processed s =
    let (r, s') = sync_booking_payments env mp b.id none none s in
    reconcile_each env mp bs
      (elim r [
        | ok _ ↦
            if same_status (flex_status_of b.id s) (flex_status_of b.id s')
            then processed
            else processed + 1
        | err _ ↦ processed
      ])
      s'

-- `reconcilePendingPayments`, with the number that it reports
unfoldable pub reconcile_pending_payments : Env → MercadoPago → Db → ℕ × Db
unfolding reconcile_each awaits_payment take
reconcile_pending_payments env mp s =
    if mp.is_configured
    then reconcile_each env mp (take 50 (find_many awaits_payment s.flex_bookings)) 0 s
    else (0, s)
