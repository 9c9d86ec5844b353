-- ===== src/Payments/Notified.antt =====
-- Notifications of Mercado Pago and the payments of a flex booking
-- (`processPaymentNotification` of src/modules/payments/flex-booking-payments.service.ts).
use deptoflex_back.Prelude.{
  Bool, Bool-cases, List, Option, [], arith, create, false, find_many, if◌then◌else◌, inl, inr,
  length, none, refl, some, true, update_many, ℕ, ◌===◌, ◌∷◌, ◌≡◌, ◌≤◌,
}
use deptoflex_back.FlexBookings.{
  confirm_from_payment, confirm_registry, find_flex_booking, notify_paid,
}
use deptoflex_back.Store.{
  Action, Db, Env, FlexBooking, Payment, PaymentStatus, Result, add_history, database, err, ok,
  payment_status_enum, update_booking, update_commissions, update_flex_booking, write_history,
  ◌>>=◌,
}
use deptoflex_back.Workflow.{approve_on_flex_booking_confirmed}
use deptoflex_back.Payments.OpenPayment.{pending_count}
use deptoflex_back.Payments.Rows.{MpPayment, is_pending_payment, update_payments}
use deptoflex_back.Payments.Notification.{
  approve_payment, approved_row, confirm_approved_booking, confirm_approved_payment, confirm_found,
  handle_refunded_payment, is_unlinked, link_status, mail_confirmed, map_mp_status, process_payment,
  record_approval,
}
use deptoflex_back.Prelude.Table.Answers.{length-find_many-create}
use deptoflex_back.Store.Hoare.{
  Post, Triple, Triple-bind, Triple-branch, Triple-final, Triple-gets, Triple-modify, Triple-pure,
  Triple-throw_if, Triple-transaction, Triple-when,
}

-- What an action leaves alone: the payments.
abbrev SamePayments : {A : Type 0} → Db → Result A × Db → Type 0
SamePayments s r = r.1.payments ≡ s.payments

confirm_from_payment-SamePayments :
    (env : Env) (id : ℕ) (s : Db) → SamePayments s (confirm_from_payment env id s)
unfolding confirm_from_payment find_flex_booking confirm_registry notify_paid update_flex_booking
    update_booking add_history write_history approve_on_flex_booking_confirmed update_commissions
    ◌>>=◌
confirm_from_payment-SamePayments env id s = ground arith

mail_confirmed-SamePayments :
    (o : Option FlexBooking) (s : Db) → SamePayments s (mail_confirmed o s)
unfolding ◌>>=◌
mail_confirmed-SamePayments none s = refl
mail_confirmed-SamePayments (some b) s = ground arith

grow :
    {A : Type 0} (b c : Bool) (x y : A) (xs ys : List A)
    → (b ≡ true → c ≡ true)
    → length xs ≤ length ys
    → length (if b then x ∷ xs else xs) ≤ length (if c then y ∷ ys else ys)
grow true true x y xs ys h k = omega (arith, k)
grow true false x y xs ys h k = ground (arith, h refl)
grow false true x y xs ys h k = omega (arith, k)
grow false false x y xs ys h k = k

module _ (id : ℕ) where
  abbrev Counted : Db → Type 0
  Counted s = pending_count id s.payments ≤ 1

  -- An update that makes no payment pending of another booking's, or of one that was not, adds none.
  update-pending_count :
      (p : Payment → Bool) (f : Payment → Payment) (ps : List Payment)
      → ((x : Payment)
          → p x ≡ true
          → is_pending_payment id (f x) ≡ true
          → is_pending_payment id x ≡ true)
      → pending_count id (update_many p f ps) ≤ pending_count id ps
  unfolding find_many update_many
  update-pending_count p f [] k = omega arith
  update-pending_count p f (x ∷ ps) k = elim (Bool-cases (p x)) [
    | inl t ↦ rw t (
        grow (is_pending_payment id (f x)) (is_pending_payment id x) (f x) x _ _ (k x t)
          (update-pending_count p f ps k))
    | inr n ↦ rw n (
        grow (is_pending_payment id x) (is_pending_payment id x) x x _ _ (λ e. e)
          (update-pending_count p f ps k))
  ]

  -- An update after which no row that it changed is pending.
  update_rule :
      (E : Db → Type 0) (p : Payment → Bool) (f : Payment → Payment)
      → ((s : Db) → Counted s → E s)
      → ((x : Payment)
          → p x ≡ true
          → is_pending_payment id (f x) ≡ true
          → is_pending_payment id x ≡ true)
      → Triple E Counted (update_payments p f) (λ _. Counted)
  unfolding update_payments
  update_rule E p f h k =
      Triple-modify _ (λ s c. omega (arith, c, update-pending_count p f s.payments k))

  approved-pending :
      (now mp_id : ℕ) (x : Payment)
      → is_pending_payment id (approve_payment now mp_id x) ≡ true
      → is_pending_payment id x ≡ true
  unfolding is_pending_payment approve_payment
  approved-pending now mp_id x e = ground arith

  approved_row_lem :
      (env : Env) (b : FlexBooking) (payment : MpPayment) (ps : List Payment)
      → (approved_row env b payment ps).status ≡ PaymentStatus.approved
  unfolding approved_row
  approved_row_lem env b payment ps = refl

  create-Counted :
      (row : Payment) (s : Db)
      → row.status ≡ PaymentStatus.approved
      → Counted s
      → pending_count id (create row s.payments) ≤ 1
  unfolding is_pending_payment
  create-Counted row s e c =
      rw (length-find_many-create (is_pending_payment id) row s.payments, e) (ground (arith, c))

  record_approval_rule :
      (env : Env) (b : FlexBooking) (payment : MpPayment) (o : Option Payment)
      → Triple (λ _. Unit) Counted (record_approval env b payment o) (λ _. Counted)
  unfolding record_approval
  record_approval_rule env b payment (some row) =
      Triple-bind (λ _. Counted) _ _ (Triple-gets _ (λ _ c. c))
        λ clash.
          Triple-bind (λ _. Counted) _ _ (Triple-throw_if clash database (λ _ _. tt) (λ _ _ c. c))
            λ _. update_rule _ _ _ (λ _ _. tt) (λ x _ e. approved-pending env.now payment.id x e)
  record_approval_rule env b payment none =
      Triple-bind (λ _. Counted) _ _ (Triple-gets _ (λ _ c. c))
        λ clash.
          Triple-bind (λ _. Counted) _ _ (Triple-throw_if clash database (λ _ _. tt) (λ _ _ c. c))
            λ _.
              Triple-bind (λ row s. (row.status ≡ PaymentStatus.approved) × Counted s) _ _
                (Triple-gets _ (λ s c. (approved_row_lem env b payment s.payments, c)))
                λ row. Triple-modify _ (λ s c. create-Counted row s c.0 c.1)

  other-pending :
      (status : PaymentStatus) (x : Payment)
      → (status === PaymentStatus.pending) ≡ false
      → is_pending_payment id (record x { status = status }) ≡ true
      → is_pending_payment id x ≡ true
  unfolding is_pending_payment
  other-pending status x n e = ground arith

  framed :
      {A : Type 0} (s : Db) (r : Result A × Db)
      → SamePayments s r
      → Counted s
      → Post Counted (λ _. Counted) r
  framed s (ok a, s') e c = rw e c
  framed s (err x, s') e c = rw e c

  frame :
      {A : Type 0} (m : Action A)
      → ((s : Db) → SamePayments s (m s))
      → Triple Counted Counted m (λ _. Counted)
  frame m f = record { at = λ s c. framed s (m s) (f s) c }

  mail_rule : (o : Option FlexBooking) → Triple Counted Counted (mail_confirmed o) (λ _. Counted)
  mail_rule o = frame _ (mail_confirmed-SamePayments o)

  confirm_approved_booking_rule :
      (env : Env) (b : FlexBooking) (payment : MpPayment)
      → Triple Counted Counted (confirm_approved_booking env b payment) (λ _. Counted)
  unfolding confirm_approved_booking is_pending_payment
  confirm_approved_booking_rule env b payment =
      Triple-branch _ _ _ (λ _. update_rule _ _ _ (λ _ c. c) (λ x _ e. ground arith))
        (λ _.
          Triple-when _ _
            (λ _.
              Triple-bind (λ _. Counted) _ _
                (Triple-transaction _ (λ _ c. c)
                  (Triple-bind (λ _. Counted) _ _ (Triple-gets _ (λ _ c. c))
                    λ o. record_approval_rule env b payment o))
                λ _.
                  Triple-bind (λ _. Counted) _ _
                    (frame _ (confirm_from_payment-SamePayments env b.id))
                    λ _. Triple-bind (λ _. Counted) _ _ (Triple-gets _ (λ _ c. c)) λ o. mail_rule o)
            (λ _ c. c))

  found_rule :
      (env : Env) (payment : MpPayment) (o : Option FlexBooking)
      → Triple Counted Counted (confirm_found env o payment) (λ _. Counted)
  found_rule env payment none = Triple-pure tt (λ _ c. c)
  found_rule env payment (some b) = confirm_approved_booking_rule env b payment

  approved_payment_rule :
      (env : Env) (payment : MpPayment) (reference : Option ℕ)
      → Triple Counted Counted (confirm_approved_payment env payment reference) (λ _. Counted)
  unfolding confirm_approved_payment
  approved_payment_rule env payment none = Triple-pure tt (λ _ c. c)
  approved_payment_rule env payment (some flex_id) =
      Triple-bind (λ _. Counted) _ _ (Triple-gets _ (λ _ c. c)) λ o. found_rule env payment o

  unlinked-pending :
      (flex_id mp_id : ℕ) (status : PaymentStatus) (x : Payment)
      → is_unlinked flex_id x ≡ true
      → is_pending_payment id (record x { mp_payment_id = some mp_id; status = status }) ≡ true
      → is_pending_payment id x ≡ true
  unfolding is_unlinked is_pending_payment
  unlinked-pending flex_id mp_id status x t e = ground arith

  link_status_rule :
      (payment : MpPayment) (reference : Option ℕ) (status : Option PaymentStatus)
      → Triple Counted Counted (link_status payment reference status) (λ _. Counted)
  link_status_rule payment none status = Triple-pure tt (λ _ c. c)
  link_status_rule payment (some flex_id) none = Triple-pure tt (λ _ c. c)
  link_status_rule payment (some flex_id) (some status) =
      Triple-bind (λ _. Counted) _ _ (Triple-gets _ (λ _ c. c))
        λ clash.
          Triple-bind (λ _. Counted) _ _ (Triple-throw_if clash database (λ _ c. c) (λ _ _ c. c))
            λ _.
              update_rule _ _ _ (λ _ c. c)
                (λ x t e. unlinked-pending flex_id payment.id status x t e)

  -- A flex booking has at most one pending payment, after a notification as before it, whatever the
  -- notification says and however it ends.
  pub process_payment-HasOnePending :
      (env : Env) (payment : MpPayment) (s : Db)
      → pending_count id s.payments ≤ 1
      → pending_count id (process_payment env payment s).1.payments ≤ 1
  unfolding process_payment handle_refunded_payment
  process_payment-HasOnePending env payment s h =
      Triple-final Counted Counted (process_payment env payment) s
        (Triple-branch _ _ _ (λ _. approved_payment_rule env payment payment.external_reference)
          (λ _.
            Triple-branch _ _ _
              (λ _.
                Triple-when _ _
                  (λ _.
                    update_rule _ _ _ (λ _ c. c)
                      (λ x _ e. other-pending PaymentStatus.refunded x refl e))
                  (λ _ c. c))
              (λ _.
                link_status_rule payment payment.external_reference
                  (map_mp_status payment.status))))
        h
