-- ===== src/Payments/Rows.antt =====
-- What the service takes from Mercado Pago and its settings, and the queries on the payments.
use deptoflex_back.Prelude.{
  Bool, Enum, List, Option, String, [], if◌then◌else◌, is_none, is_some, ltb, none, some,
  update_many, ℕ, ◌&&◌, ◌*◌, ◌-◌, ◌===◌, ◌==?◌, ◌==◌, ◌otherwise◌, ◌∷◌,
}
use deptoflex_back.Store.{
  Action, Env, FlexBooking, Payment, PaymentStatus, modify, payment_status_enum,
}

-- `payment.status`, a text of Mercado Pago; `other` stands for every text that is not listed.
pub data MpStatus : Type 0 where
  approved refunded charged_back rejected cancelled pending in_process other : MpStatus

abbrev pub mp_status_code : MpStatus → ℕ
mp_status_code MpStatus.approved = 0
mp_status_code MpStatus.refunded = 1
mp_status_code MpStatus.charged_back = 2
mp_status_code MpStatus.rejected = 3
mp_status_code MpStatus.cancelled = 4
mp_status_code MpStatus.pending = 5
mp_status_code MpStatus.in_process = 6
mp_status_code MpStatus.other = 7

instance abbrev pub mp_status_enum : Enum MpStatus
mp_status_enum = record { code = mp_status_code }

-- `MercadoPagoPaymentInfo`; an empty reference counts as none.
pub record MpPayment : Type 0 where
  pub id : ℕ
  pub status : MpStatus
  pub external_reference : Option ℕ
  pub transaction_amount : ℕ

pub record MerchantOrder : Type 0 where
  pub payment_ids : List ℕ
  pub external_reference : Option ℕ

pub record MpCheckout : Type 0 where
  pub preference_id : ℕ
  pub checkout_url : String

-- `MercadoPagoService` and the settings: what a call answers, `none` where it throws.
pub record MercadoPago : Type 0 where
  pub is_configured : Bool
  pub expiration_days : ℕ
  pub get_payment : ℕ → Option MpPayment
  pub get_merchant_order : ℕ → Option MerchantOrder
  pub get_merchant_order_again : ℕ → Option MerchantOrder
  pub search_payments : ℕ → Option (List ℕ)
  pub create_checkout : FlexBooking → ℕ → Option MpCheckout

-- `paymentLinkExpirationDays` and `paymentLinkExpirationCutoff`
unfoldable pub payment_link_expiration_days : MercadoPago → ℕ
payment_link_expiration_days mp = if ltb 0 mp.expiration_days then mp.expiration_days else 7

unfoldable pub expiration_cutoff : Env → MercadoPago → ℕ
unfolding payment_link_expiration_days
expiration_cutoff env mp = env.now - payment_link_expiration_days mp * 86400000

-- `booking.reservationPaymentAmount != null ? Number(…) : 0`
unfoldable pub amount_due : FlexBooking → ℕ
amount_due b = b.reservation_payment_amount otherwise 0

-- `findFirst({ where, orderBy: { createdAt: 'desc' } })`
abbrev pub later : Payment → Option Payment → Option Payment
later p none = some p
later p (some q) = if ltb p.created_at q.created_at then some q else some p

unfoldable pub latest : (Payment → Bool) → List Payment → Option Payment
latest p [] = none
latest p (x ∷ xs) = let rest = latest p xs in if p x then later x rest else rest

unfoldable pub is_pending_payment : ℕ → Payment → Bool
is_pending_payment flex_booking_id p =
    p.flex_booking_id == flex_booking_id && p.status === PaymentStatus.pending

unfoldable pub is_approved_payment : ℕ → Payment → Bool
is_approved_payment flex_booking_id p =
    p.flex_booking_id == flex_booking_id && p.status === PaymentStatus.approved

-- A pending checkout whose link has not expired.
unfoldable pub is_reusable : ℕ → ℕ → Payment → Bool
unfolding is_pending_payment
is_reusable cutoff flex_booking_id p =
    is_pending_payment flex_booking_id p && is_some p.checkout_url && ltb cutoff p.created_at

-- `where: { mpPaymentId }`
unfoldable pub has_mp_id : ℕ → Payment → Bool
has_mp_id mp_payment_id p = p.mp_payment_id ==? mp_payment_id

unfoldable pub update_payments : (Payment → Bool) → (Payment → Payment) → Action (Unit {0})
update_payments p f = modify λ s. record s { payments = update_many p f s.payments }

unfoldable pub live_by_token : ℕ → FlexBooking → Bool
live_by_token token b = b.payment_token ==? token && is_none b.deleted_at
