-- ===== src/Payments/OpenPayment.antt =====
-- A flex booking has one payment to wait for
-- (`createPublicCheckout` of src/modules/payments/flex-booking-payments.service.ts).
use deptoflex_back.Prelude.{
  ==_iff, Bool-cases, List, Option, String, [], ap, arith, create, find_many, if◌then◌else◌, inl,
  inr, length, none, refl, some, update_many, ℕ, ◌+◌, ◌==◌, ◌∷◌, ◌≡◌, ◌≤◌,
}
use deptoflex_back.Payments.Checkout.{
  create_public_checkout, find_by_token, new_payment, open_checkout, reuse_or, set_payment_status,
  url_of,
}
use deptoflex_back.Payments.Rows.{MercadoPago, amount_due, is_pending_payment, update_payments}
use deptoflex_back.Store.{
  Action, Db, Env, FlexBooking, Payment, PaymentStatus, bad_request, not_found, remote, unavailable,
}
use deptoflex_back.Store.Hoare.{
  Triple, Triple-bind, Triple-final, Triple-gets, Triple-modify, Triple-or_throw, Triple-pure,
  Triple-throw_if,
}

module _ (id : ℕ) where
  -- The payments of a flex booking that are pending.
  abbrev pub pending_count : List Payment → ℕ
  pending_count ps = length (find_many (is_pending_payment id) ps)

  cancelled-pending_count :
      (b : ℕ) (ps : List Payment)
      → pending_count
          (update_many (is_pending_payment b) (set_payment_status PaymentStatus.cancelled) ps)
        ≤ pending_count ps
  unfolding find_many update_many is_pending_payment
  cancelled-pending_count b [] = omega arith
  cancelled-pending_count b (p ∷ ps) = ground (arith, cancelled-pending_count b ps)

  cancelled-none :
      (ps : List Payment)
      → pending_count
          (update_many (is_pending_payment id) (set_payment_status PaymentStatus.cancelled) ps)
        ≡ 0
  unfolding find_many update_many is_pending_payment
  cancelled-none [] = refl
  cancelled-none (p ∷ ps) = ground (arith, cancelled-none ps)

  create-pending_count :
      (p : Payment) (ps : List Payment)
      → pending_count (create p ps) ≡ pending_count ps + (if is_pending_payment id p then 1 else 0)
  unfolding find_many
  create-pending_count p [] = ground arith
  create-pending_count p (q ∷ ps) = ground (arith, create-pending_count p ps)

  abbrev pub HasOnePending : Db → Type 0
  HasOnePending s = pending_count s.payments ≤ 1

  -- The older payments of a booking are cancelled.
  abbrev IsCleared : ℕ → Db → Type 0
  IsCleared b s = HasOnePending s × (b ≡ id → pending_count s.payments ≡ 0)

  create-HasOnePending :
      (b : ℕ) (p : Payment) (s : Db)
      → p.flex_booking_id ≡ b
      → IsCleared b s
      → pending_count (create p s.payments) ≤ 1
  unfolding is_pending_payment
  create-HasOnePending b p s own h = elim (Bool-cases (b == id)) [
    | inl t ↦ ground (arith, create-pending_count p s.payments, h.1 ((==_iff b id).0 t))
    | inr f ↦ ground (arith, create-pending_count p s.payments, h.0, own, f)
  ]

  open_checkout_rule :
      (env : Env) (mp : MercadoPago) (b : FlexBooking)
      → Triple HasOnePending HasOnePending (open_checkout env mp b) (λ _. HasOnePending)
  unfolding open_checkout update_payments
  open_checkout_rule env mp b =
      Triple-bind (λ _. IsCleared b.id) _ _
        (Triple-modify _ (λ s h. (
          omega (arith, h, cancelled-pending_count b.id s.payments),
          λ e. rw e (cancelled-none s.payments),
        )))
        λ _.
          Triple-bind (λ _. IsCleared b.id) _ _
            (Triple-or_throw _ remote (λ _ p. p.0) (λ _ _ _ p. p))
            λ checkout.
              Triple-bind
                (λ p s.
                  (p ≡ new_payment env b (amount_due b) checkout s.payments) × IsCleared b.id s)
                _ _ (Triple-gets _ (λ _ p. (refl, p)))
                λ payment.
                  Triple-bind (λ _. HasOnePending) _ _
                    (Triple-modify _ (λ s p.
                      create-HasOnePending b.id payment s (ap (λ q. q.flex_booking_id) p.0) p.1))
                    λ _. Triple-pure _ (λ _ h. h)

  reuse_rule :
      (m : Action String) (o : Option String)
      → Triple HasOnePending HasOnePending m (λ _. HasOnePending)
      → Triple HasOnePending HasOnePending (reuse_or o m) (λ _. HasOnePending)
  reuse_rule m none h = h
  reuse_rule m (some url) h = Triple-pure url (λ _ h. h)

  find_by_token_rule :
      (token : ℕ) → Triple HasOnePending HasOnePending (find_by_token token) (λ _. HasOnePending)
  find_by_token_rule token =
      Triple-bind (λ _. HasOnePending) _ _ (Triple-gets _ (λ _ h. h))
        λ o. Triple-or_throw o not_found (λ _ h. h) (λ _ _ _ h. h)

  -- A flex booking has at most one pending payment, after a checkout as before it, whether the
  -- checkout returns or throws.
  pub create_public_checkout-HasOnePending :
      (env : Env) (mp : MercadoPago) (token : ℕ) (s : Db)
      → pending_count s.payments ≤ 1
      → pending_count (create_public_checkout env mp token s).1.payments ≤ 1
  unfolding create_public_checkout
  create_public_checkout-HasOnePending env mp token s h =
      Triple-final HasOnePending HasOnePending (create_public_checkout env mp token) s
        (Triple-bind (λ _. HasOnePending) _ _
          (Triple-throw_if _ unavailable (λ _ h. h) (λ _ _ h. h))
          λ _.
            Triple-bind (λ _. HasOnePending) _ _ (find_by_token_rule token)
              λ b.
                Triple-bind (λ _. HasOnePending) _ _
                  (Triple-throw_if _ bad_request (λ _ h. h) (λ _ _ h. h))
                  λ _.
                    Triple-bind (λ _. HasOnePending) _ _
                      (Triple-throw_if _ bad_request (λ _ h. h) (λ _ _ h. h))
                      λ _.
                        Triple-bind (λ _. HasOnePending) _ _
                          (Triple-throw_if _ bad_request (λ _ h. h) (λ _ _ h. h))
                          λ _.
                            Triple-bind (λ _. HasOnePending) _ _ (Triple-gets _ (λ _ h. h))
                              λ paid.
                                Triple-bind (λ _. HasOnePending) _ _
                                  (Triple-throw_if paid bad_request (λ _ h. h) (λ _ _ h. h))
                                  λ _.
                                    Triple-bind (λ _. HasOnePending) _ _ (Triple-gets _ (λ _ h. h))
                                      λ reusable.
                                        reuse_rule _ (url_of reusable)
                                          (open_checkout_rule env mp b))
        h
