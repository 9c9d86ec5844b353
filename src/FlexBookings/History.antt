-- ===== src/FlexBookings/History.antt =====
-- Every method of `FlexBookingsService` (src/modules/flex-bookings/flex-bookings.service.ts) keeps
-- the registry and its history together too.
use deptoflex_back.Store.Hoare.{
  Triple, Triple-bind, Triple-branch, Triple-final, Triple-gets, Triple-modify, Triple-pure,
  Triple-throw_if, Triple-transaction, Triple-weaken, Triple-when,
}
use deptoflex_back.Access.{CurrentUser, assert_can_operate_as_ambassador}
use deptoflex_back.Bookings.Rules.{
  DbIsLogged, SameLog, StandsAt, add_history_rule, found-StandsAt, frame_rule, move_rule, send_rule,
}
use deptoflex_back.FlexBookings.Create.{
  CreateFlexBooking, amounts_differ, create_flex_booking, profile_for, register, registry_of,
}
use deptoflex_back.History.{IsFresh, IsLogged}
use deptoflex_back.Prelude.{Option, arith, create, none, refl, some, ℕ, ◌==?◌, ◌≡◌}
use deptoflex_back.Pricing.{PricingQuote, ensure_property, quote, quote_from}
use deptoflex_back.Store.{
  Booking, BookingStatus, Commission, Db, Env, FlexBooking, FlexBookingStatus, Message,
  add_commission, bad_request, database, gets, history_row, not_found, set_flex_status,
  update_commissions, update_flex_booking, ◌>>=◌,
}
use deptoflex_back.FlexBookings.Confirm.{
  confirm_from_payment, confirm_registry, find_flex_booking, notify_paid, registry_row,
}
use deptoflex_back.History.Laws.{IsLogged-create}
use deptoflex_back.Workflow.{approve_on_flex_booking_confirmed}
use deptoflex_back.Bookings.Added.{fresh_id}

-- What a read leaves.
reads-SameLog : {A : Type 0} (f : Db → A) (s : Db) → SameLog s (gets f s)
unfolding ◌>>=◌
reads-SameLog f s = (refl, refl)

quote-SameLog :
    (env : Env) (id months : ℕ) (plan : Option ℕ) (s : Db) → SameLog s (quote env id months plan s)
unfolding quote ensure_property quote_from ◌>>=◌
quote-SameLog env id months plan s = (ground arith, ground arith)

profile_for-SameLog :
    (dto : CreateFlexBooking) (u : Option CurrentUser) (s : Db) → SameLog s (profile_for dto u s)
unfolding profile_for assert_can_operate_as_ambassador ◌>>=◌
profile_for-SameLog dto none s = (refl, refl)
profile_for-SameLog dto (some u) s = (ground arith, ground arith)

-- The registry has a new row, whose first entry is still to be written.
abbrev DbIsNew : Booking → Db → Type 0
DbIsNew b s = IsLogged s.bookings (
    create (history_row b.id none BookingStatus.pending (some "Flex booking created") none)
      s.status_history)

add_commission-SameLog : (c : Commission) (s : Db) → SameLog s (add_commission c s)
unfolding add_commission
add_commission-SameLog c s = (ground arith, ground arith)

-- The transaction of `create`.
register_rule :
    (env : Env) (dto : CreateFlexBooking) (q : PricingQuote) (profile : Option ℕ)
    → IsFresh env.fresh
    → Triple DbIsLogged DbIsLogged (register env dto q profile) (λ _. DbIsLogged)
unfolding register
register_rule env dto q profile f =
    Triple-transaction _ (λ _ h. h)
      (Triple-bind (λ _. DbIsLogged) _ _ (Triple-gets _ (λ _ h. h))
        λ fb.
          Triple-bind (λ _. DbIsLogged) _ _ (Triple-gets _ (λ _ h. h))
            λ taken.
              Triple-bind (λ _. DbIsLogged) _ _
                (Triple-throw_if taken database (λ _ _. tt) (λ _ _ h. h))
                λ _.
                  Triple-bind (λ _. DbIsLogged) _ _ (Triple-modify _ (λ _ h. h))
                    λ _.
                      Triple-bind (λ b s. (b ≡ registry_of env dto fb s.bookings) × DbIsLogged s) _
                        _ (Triple-gets _ (λ _ h. (refl, h)))
                        λ b.
                          Triple-bind (λ _. DbIsNew b) _ _
                            (Triple-modify _ (λ s p.
                              IsLogged-create s.bookings s.status_history b _
                                (rw p.0 (fresh_id env f s.bookings)) refl refl (rw p.0 refl) p.1))
                            λ _.
                              Triple-bind (λ _. DbIsLogged) _ _
                                (add_history_rule b.id none BookingStatus.pending
                                  (some "Flex booking created") none)
                                λ _.
                                  Triple-bind (λ _. DbIsLogged) _ _ (Triple-gets _ (λ _ h. h))
                                    λ rate.
                                      Triple-bind (λ _. DbIsLogged) _ _ (Triple-gets _ (λ _ h. h))
                                        λ c.
                                          Triple-bind (λ _. DbIsLogged) _ _
                                            (frame_rule _ IsLogged _ (λ _ _. tt)
                                              (add_commission-SameLog c))
                                            λ _. Triple-pure _ (λ _ h. h))

-- After `create` of a flex booking, given that the generated ids are not in use.
pub create_flex_booking-IsLogged :
    (env : Env) (dto : CreateFlexBooking) (user : Option CurrentUser) (s : Db)
    → IsFresh env.fresh
    → DbIsLogged s
    → DbIsLogged (create_flex_booking env dto user s).1
unfolding create_flex_booking
create_flex_booking-IsLogged env dto user s f l =
    Triple-final DbIsLogged DbIsLogged (create_flex_booking env dto user) s
      (Triple-bind (λ _. DbIsLogged) _ _ (Triple-gets _ (λ _ h. h))
        λ there.
          Triple-bind (λ _. DbIsLogged) _ _ (Triple-throw_if _ not_found (λ _ h. h) (λ _ _ h. h))
            λ _.
              Triple-bind (λ _. DbIsLogged) _ _
                (Triple-throw_if _ bad_request (λ _ h. h) (λ _ _ h. h))
                λ _.
                  Triple-bind (λ _. DbIsLogged) _ _ (Triple-gets _ (λ _ h. h))
                    λ taken.
                      Triple-bind (λ _. DbIsLogged) _ _
                        (Triple-throw_if taken bad_request (λ _ h. h) (λ _ _ h. h))
                        λ _.
                          Triple-bind (λ _. DbIsLogged) _ _
                            (frame_rule _ IsLogged _ (λ _ h. h)
                              (quote-SameLog env dto.property_flex_id dto.total_months
                                dto.pricing_plan_id))
                            λ q.
                              Triple-bind (λ _. DbIsLogged) _ _
                                (Triple-throw_if (amounts_differ dto q) bad_request (λ _ h. h)
                                  (λ _ _ h. h))
                                λ _.
                                  Triple-bind (λ _. DbIsLogged) _ _
                                    (frame_rule _ IsLogged _ (λ _ h. h)
                                      (profile_for-SameLog dto user))
                                    λ profile.
                                      Triple-bind (λ _. DbIsLogged) _ _
                                        (register_rule env dto q profile f)
                                        λ r.
                                          Triple-bind (λ _. DbIsLogged) _ _
                                            (send_rule (Message.booking_created r.1))
                                            λ _.
                                              Triple-bind (λ _. DbIsLogged) _ _
                                                (Triple-when _ _ (λ _. send_rule _) (λ _ h. h))
                                                λ _. Triple-pure r.0 (λ _ h. h))
      l

-- The registry's row of a flex booking, as the transactions read it.
pub registry_rule :
    (E : Db → Type 0) (id : ℕ)
    → Triple E DbIsLogged
        (gets (registry_row id))
        (λ o s. ((b : Booking) → o ≡ some b → StandsAt b.id b.status s) × DbIsLogged s)
unfolding registry_row
registry_rule E id =
    Triple-gets _ (λ s l. ((λ b e. found-StandsAt (λ b. b.flex_booking_id ==? id) s l e), l))

pub update_flex_booking-SameLog :
    (id : ℕ) (f : FlexBooking → FlexBooking) (s : Db) → SameLog s (update_flex_booking id f s)
unfolding update_flex_booking
update_flex_booking-SameLog id f s = (ground arith, ground arith)

pub find_flex_booking-SameLog : (id : ℕ) (s : Db) → SameLog s (find_flex_booking id s)
unfolding find_flex_booking ◌>>=◌
find_flex_booking-SameLog id s = (ground arith, ground arith)

confirm_registry_rule :
    (env : Env) (o : Option Booking)
    → Triple
        (λ _. Unit)
        (λ s. ((b : Booking) → o ≡ some b → StandsAt b.id b.status s) × DbIsLogged s)
        (confirm_registry env o)
        (λ _. DbIsLogged)
unfolding confirm_registry approve_on_flex_booking_confirmed update_commissions
confirm_registry_rule env none = Triple-pure none (λ _ p. p.1)
confirm_registry_rule env (some b) =
    Triple-branch _ _ _ (λ _. Triple-pure none (λ _ p. p.1))
      (λ _.
        Triple-weaken (StandsAt b.id b.status) _ (λ s p. p.0 b refl)
          (move_rule b.id b.status BookingStatus.confirmed (some "Mercado Pago payment approved")
            none _
            (Triple-bind (λ _. DbIsLogged) _ _ (Triple-modify _ (λ _ h. h))
              λ _. Triple-pure _ (λ _ h. h))))

notify_paid-SameLog : (o : Option ℕ) (s : Db) → SameLog s (notify_paid o s)
unfolding notify_paid ◌>>=◌
notify_paid-SameLog none s = (refl, refl)
notify_paid-SameLog (some b) s = (refl, refl)

-- After `confirmFromPayment`.
pub confirm_from_payment_rule :
    (env : Env) (id : ℕ)
    → Triple DbIsLogged DbIsLogged (confirm_from_payment env id) (λ _. DbIsLogged)
unfolding confirm_from_payment
confirm_from_payment_rule env id =
    Triple-bind (λ _. DbIsLogged) _ _
      (frame_rule _ IsLogged _ (λ _ h. h) (find_flex_booking-SameLog id))
      λ b.
        Triple-when _ _
          (λ _.
            Triple-bind (λ _. DbIsLogged) _ _
              (Triple-throw_if _ bad_request (λ _ h. h) (λ _ _ h. h))
              λ _.
                Triple-bind (λ _. DbIsLogged) _ _
                  (Triple-transaction _ (λ _ h. h)
                    (Triple-bind (λ _. DbIsLogged) _ _
                      (frame_rule _ IsLogged _ (λ _ _. tt)
                        (update_flex_booking-SameLog id
                          (set_flex_status FlexBookingStatus.confirmed)))
                      λ _. Triple-bind _ _ _ (registry_rule _ id) λ o. confirm_registry_rule env o))
                  λ c. frame_rule _ IsLogged _ (λ _ h. h) (notify_paid-SameLog c))
          (λ _ h. h)
