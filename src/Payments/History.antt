-- ===== src/Payments/History.antt =====
-- The payment of a reservation (src/modules/payments/flex-booking-payments.service.ts) keeps the
-- registry and its history together: it changes them by `confirmFromPayment` only.
use deptoflex_back.Store.Hoare.{
  Triple, Triple-bind, Triple-branch, Triple-final, Triple-gets, Triple-modify, Triple-or_throw,
  Triple-pure, Triple-throw_if, Triple-transaction, Triple-when,
}
use deptoflex_back.Bookings.Rules.{DbIsLogged, SameLog, frame_rule}
use deptoflex_back.FlexBookings.History.{confirm_from_payment_rule}
use deptoflex_back.History.{IsLogged}
use deptoflex_back.Payments.Notification.{
  confirm_approved_booking, confirm_approved_payment, confirm_found, handle_refunded_payment,
  link_status, mail_confirmed, process_payment, process_payment_notification, record_approval,
}
use deptoflex_back.Payments.Rows.{MercadoPago, MerchantOrder, MpPayment, update_payments}
use deptoflex_back.Payments.Webhook.{
  WebhookEvent, attempt, awaits_payment, handle_event, handle_found_event, handle_webhook,
  ids_or_search, merchant_order_event, payment_event, process_all, process_found,
  process_merchant_order_notification, process_order, reconcile_each, reconcile_pending_payments,
  sync_booking_payments, sync_public_payment, take, unsupported_event,
}
use deptoflex_back.Prelude.{
  Bool, Bool-cases, List, Option, [], arith, find_many, inl, inr, none, refl, some, ℕ, ◌∷◌,
}
use deptoflex_back.Store.{
  Action, Db, Env, Error, FlexBooking, Payment, PaymentStatus, database, gets, or_throw, pure,
  remote, throw_if, unavailable, ◌>>=◌,
}
use deptoflex_back.Payments.Checkout.{
  create_public_checkout, find_by_token, get_public_payment_page,
}

abbrev Keeps : {A : Type 0} → Action A → Type 0
Keeps m = Triple DbIsLogged DbIsLogged m (λ _. DbIsLogged)

Keeps-gets : {A : Type 0} (f : Db → A) → Keeps (gets f)
Keeps-gets f = Triple-gets f (λ _ h. h)

Keeps-or_throw : {A : Type 0} (o : Option A) (e : Error) → Keeps (or_throw o e)
Keeps-or_throw o e = Triple-or_throw o e (λ _ h. h) (λ _ _ _ h. h)

Keeps-throw_if : (c : Bool) (e : Error) → Keeps (throw_if c e)
Keeps-throw_if c e = Triple-throw_if c e (λ _ h. h) (λ _ _ h. h)

Keeps-pure : {A : Type 0} (a : A) → Keeps (pure a)
Keeps-pure a = Triple-pure a (λ _ h. h)

Keeps-then :
    {A B : Type 0} (m : Action A) (f : A → Action B)
    → Keeps m
    → ((a : A) → Keeps (f a))
    → Keeps (m >>= f)
Keeps-then m f h k = Triple-bind (λ _. DbIsLogged) m f h k

Keeps-update_payments : (p : Payment → Bool) (f : Payment → Payment) → Keeps (update_payments p f)
unfolding update_payments
Keeps-update_payments p f = Triple-modify _ (λ _ h. h)

record_approval-SameLog :
    (env : Env) (b : FlexBooking) (payment : MpPayment) (o : Option Payment) (s : Db)
    → SameLog s (record_approval env b payment o s)
unfolding record_approval update_payments ◌>>=◌
record_approval-SameLog env b payment none s = (ground arith, ground arith)
record_approval-SameLog env b payment (some p) s = (ground arith, ground arith)

mail_confirmed-SameLog : (o : Option FlexBooking) (s : Db) → SameLog s (mail_confirmed o s)
unfolding ◌>>=◌
mail_confirmed-SameLog none s = (refl, refl)
mail_confirmed-SameLog (some b) s = (ground arith, ground arith)

confirm_approved_booking_rule :
    (env : Env) (b : FlexBooking) (payment : MpPayment)
    → Keeps (confirm_approved_booking env b payment)
unfolding confirm_approved_booking
confirm_approved_booking_rule env b payment =
    Triple-branch _ _ _ (λ _. Keeps-update_payments _ _)
      (λ _.
        Triple-when _ _
          (λ _.
            Keeps-then _ _
              (Triple-transaction _ (λ _ h. h)
                (Triple-bind (λ _. DbIsLogged) _ _ (Triple-gets _ (λ _ h. h))
                  λ o.
                    frame_rule _ IsLogged _ (λ _ _. tt) (record_approval-SameLog env b payment o)))
              λ _. Keeps-then _ _ (confirm_from_payment_rule env b.id) λ _.
                Keeps-then _ _ (Keeps-gets _)
                  λ o. frame_rule _ IsLogged _ (λ _ h. h) (mail_confirmed-SameLog o))
          (λ _ h. h))

confirm_approved_payment_rule :
    (env : Env) (payment : MpPayment) (reference : Option ℕ)
    → Keeps (confirm_approved_payment env payment reference)
unfolding confirm_approved_payment
confirm_approved_payment_rule env payment none = Keeps-pure tt
confirm_approved_payment_rule env payment (some id) = Keeps-then _ _ (Keeps-gets _) λ o. found o
  where
    found : (o : Option FlexBooking) → Keeps (confirm_found env o payment)
    found none = Keeps-pure tt
    found (some b) = confirm_approved_booking_rule env b payment

link_status_rule :
    (payment : MpPayment) (reference : Option ℕ) (status : Option PaymentStatus)
    → Keeps (link_status payment reference status)
link_status_rule payment none status = Keeps-pure tt
link_status_rule payment (some id) none = Keeps-pure tt
link_status_rule payment (some id) (some status) =
    Keeps-then _ _ (Keeps-gets _)
      λ c. Keeps-then _ _ (Keeps-throw_if c database) λ _. Keeps-update_payments _ _

-- Whatever Mercado Pago says of a payment.
pub process_payment_rule : (env : Env) (payment : MpPayment) → Keeps (process_payment env payment)
unfolding process_payment handle_refunded_payment
process_payment_rule env payment =
    Triple-branch _ _ _ (λ _. confirm_approved_payment_rule env payment payment.external_reference)
      (λ _.
        Triple-branch _ _ _ (λ _. Triple-when _ _ (λ _. Keeps-update_payments _ _) (λ _ h. h))
          (λ _. link_status_rule payment payment.external_reference _))

process_payment_notification_rule :
    (env : Env) (mp : MercadoPago) (id : ℕ) → Keeps (process_payment_notification env mp id)
unfolding process_payment_notification
process_payment_notification_rule env mp id =
    Keeps-then _ _ (Keeps-or_throw _ remote) λ payment. process_payment_rule env payment

process_all_rule : (env : Env) (mp : MercadoPago) (ids : List ℕ) → Keeps (process_all env mp ids)
unfolding process_all
process_all_rule env mp [] = Keeps-pure tt
process_all_rule env mp (id ∷ ids) =
    Keeps-then _ _ (process_payment_notification_rule env mp id) λ _. process_all_rule env mp ids

process_found_rule :
    (env : Env) (mp : MercadoPago) (reference : ℕ) → Keeps (process_found env mp reference)
unfolding process_found
process_found_rule env mp reference =
    Keeps-then _ _ (Keeps-or_throw _ remote) λ found. process_all_rule env mp found

ids_or_search_rule :
    (env : Env) (mp : MercadoPago) (reference : ℕ) (ids : List ℕ)
    → Keeps (ids_or_search env mp reference ids)
ids_or_search_rule env mp reference [] = process_found_rule env mp reference
ids_or_search_rule env mp reference (id ∷ ids) = process_all_rule env mp (id ∷ ids)

pub sync_booking_payments_rule :
    (env : Env) (mp : MercadoPago) (id : ℕ) (payment order : Option ℕ)
    → Keeps (sync_booking_payments env mp id payment order)
unfolding sync_booking_payments
sync_booking_payments_rule env mp id payment none = ids_or_search_rule env mp id _
sync_booking_payments_rule env mp id payment (some order) =
    Keeps-then _ _ (Keeps-or_throw _ remote) λ o. ids_or_search_rule env mp _ _

process_order_rule :
    (env : Env) (mp : MercadoPago) (order : MerchantOrder) (again : Action (Unit {0}))
    → Keeps again
    → Keeps (process_order env mp order again)
process_order_rule env mp order again h = go order.payment_ids order.external_reference
  where
    go :
        (ids : List ℕ) (reference : Option ℕ)
        → Keeps (
            process_order env mp
              (record { payment_ids = ids; external_reference = reference })
              again)
    go [] none = h
    go [] (some reference) = sync_booking_payments_rule env mp reference none none
    go (id ∷ ids) reference = process_all_rule env mp (id ∷ ids)

handle_event_rule :
    (env : Env) (mp : MercadoPago) (event : WebhookEvent) → Keeps (handle_event env mp event)
unfolding process_merchant_order_notification
handle_event_rule env mp (payment_event id) = process_payment_notification_rule env mp id
handle_event_rule env mp (merchant_order_event id) = Keeps-then _ _ (Keeps-or_throw _ remote) λ o.
    process_order_rule env mp o _ (
      Keeps-then _ _ (Keeps-or_throw _ remote)
        λ retry. process_order_rule env mp retry _ (Keeps-pure tt))
handle_event_rule env mp unsupported_event = Keeps-pure tt

attempt_rule : (m : Action (Unit {0})) → Keeps m → Keeps (attempt m)
unfolding attempt
attempt_rule m h = record { at = λ s l. Triple-final DbIsLogged DbIsLogged m s h l }

handle_found_event_rule :
    (env : Env) (mp : MercadoPago) (event : Option WebhookEvent)
    → Keeps (handle_found_event env mp event)
handle_found_event_rule env mp none = Keeps-pure tt
handle_found_event_rule env mp (some event) = attempt_rule _ (handle_event_rule env mp event)

-- The webhook, whatever the event and whatever Mercado Pago answers, also where it throws.
pub handle_webhook_rule :
    (env : Env) (mp : MercadoPago) (event : Option WebhookEvent)
    → Keeps (handle_webhook env mp event)
unfolding handle_webhook
handle_webhook_rule env mp event =
    Triple-when _ _ (λ _. handle_found_event_rule env mp event) (λ _ h. h)

create_public_checkout-SameLog :
    (env : Env) (mp : MercadoPago) (token : ℕ) (s : Db)
    → SameLog s (create_public_checkout env mp token s)
unfolding create_public_checkout update_payments ◌>>=◌
create_public_checkout-SameLog env mp token s = (ground arith, ground arith)

-- The guest's checkout.
pub create_public_checkout_rule :
    (env : Env) (mp : MercadoPago) (token : ℕ) → Keeps (create_public_checkout env mp token)
create_public_checkout_rule env mp token =
    frame_rule _ IsLogged _ (λ _ h. h) (create_public_checkout-SameLog env mp token)

find_by_token-SameLog : (token : ℕ) (s : Db) → SameLog s (find_by_token token s)
unfolding ◌>>=◌
find_by_token-SameLog token s = (ground arith, ground arith)

get_public_payment_page-SameLog :
    (env : Env) (mp : MercadoPago) (token : ℕ) (s : Db)
    → SameLog s (get_public_payment_page env mp token s)
unfolding get_public_payment_page ◌>>=◌
get_public_payment_page-SameLog env mp token s = (ground arith, ground arith)

-- The synchronization that the guest's page asks for.
pub sync_public_payment_rule :
    (env : Env) (mp : MercadoPago) (token : ℕ) (payment order : Option ℕ)
    → Keeps (sync_public_payment env mp token payment order)
unfolding sync_public_payment
sync_public_payment_rule env mp token payment order =
    Triple-bind (λ _. DbIsLogged) _ _ (Triple-throw_if _ unavailable (λ _ h. h) (λ _ _ h. h))
      λ _.
        Triple-bind (λ _. DbIsLogged) _ _
          (frame_rule _ IsLogged _ (λ _ h. h) (find_by_token-SameLog token))
          λ b.
            Triple-bind (λ _. DbIsLogged) _ _ (sync_booking_payments_rule env mp b.id payment order)
              λ _. frame_rule _ IsLogged _ (λ _ h. h) (get_public_payment_page-SameLog env mp token)

-- The loop of the job that reconciles.
reconcile_each-IsLogged :
    (env : Env) (mp : MercadoPago) (bs : List FlexBooking) (n : ℕ) (s : Db)
    → DbIsLogged s
    → DbIsLogged (reconcile_each env mp bs n s).1
unfolding reconcile_each
reconcile_each-IsLogged env mp [] n s l = l
reconcile_each-IsLogged env mp (b ∷ bs) n s l = reconcile_each-IsLogged env mp bs _ _ (
    Triple-final DbIsLogged DbIsLogged (sync_booking_payments env mp b.id none none) s
      (sync_booking_payments_rule env mp b.id none none) l)

pub reconcile_pending_payments-IsLogged :
    (env : Env) (mp : MercadoPago) (s : Db)
    → DbIsLogged s
    → DbIsLogged (reconcile_pending_payments env mp s).1
unfolding reconcile_pending_payments
reconcile_pending_payments-IsLogged env mp s l = elim (Bool-cases mp.is_configured) [
  | inl on ↦
      simp on
        (reconcile_each-IsLogged env mp (take 50 (find_many awaits_payment s.flex_bookings)) 0 s l)
  | inr off ↦ simp off l
]
