-- ===== src/FlexBookings/UpdateHistory.antt =====
-- `update` and `softDelete` of `FlexBookingsService`
-- (src/modules/flex-bookings/flex-bookings.service.ts) keep the registry and its history together.
use deptoflex_back.Store.Hoare.{
  Triple, Triple-bind, Triple-branch, Triple-final, Triple-gets, Triple-pure, Triple-throw_if,
  Triple-transaction, Triple-weaken, Triple-when,
}
use deptoflex_back.Bookings.History.{execute_cancellation_rule}
use deptoflex_back.Bookings.Rules.{
  DbIsLogged, SameLog, StandsAt, StandsIn, frame_rule, move_rule, update_booking_keeps,
  update_booking_keeps_StandsAt,
}
use deptoflex_back.FlexBookings.History.{
  find_flex_booking-SameLog, registry_rule, update_flex_booking-SameLog,
}
use deptoflex_back.FlexBookings.Update.{
  UpdateFlexBooking, apply_flex_update, apply_registry_update, cancel_registry, cancellation_reason,
  delete_registry, flex_to_booking_status, move_registry, notify_confirmed, reprice_after,
  soft_delete_flex, update_flex, update_registry, write_update, written_status,
}
use deptoflex_back.History.{IsLogged}
use deptoflex_back.Prelude.{Bool, Option, String, false, none, refl, some, true, ℕ, ◌≡◌}
use deptoflex_back.Store.{
  Actor, Booking, Db, Env, FlexBooking, FlexBookingStatus, bad_request, update_commissions, when,
  ◌>>=◌,
}
use deptoflex_back.Workflow.{approve_on_flex_booking_confirmed}

reprice_after-SameLog :
    (env : Env) (dto : UpdateFlexBooking) (f : FlexBooking) (b : Booking) (s : Db)
    → SameLog s (reprice_after env dto f b s)
unfolding reprice_after update_commissions ◌>>=◌
reprice_after-SameLog env dto f b s = (refl, refl)

approve_when-SameLog :
    (env : Env) (c : Bool) (id : ℕ) (s : Db)
    → SameLog s (when c (approve_on_flex_booking_confirmed env id) s)
unfolding approve_on_flex_booking_confirmed update_commissions ◌>>=◌
approve_when-SameLog env true id s = (refl, refl)
approve_when-SameLog env false id s = (refl, refl)

move_registry_rule :
    (env : Env) (status : Option FlexBookingStatus) (b : Booking) (by : Option Actor)
    → Triple (λ _. Unit) (StandsAt b.id b.status) (move_registry env status b by) (λ _. DbIsLogged)
unfolding move_registry
move_registry_rule env none b by = Triple-pure none (λ _ p. p.0)
move_registry_rule env (some status) b by =
    Triple-branch _ _ _ (λ _. Triple-pure none (λ _ p. p.0))
      (λ _.
        move_rule b.id b.status (flex_to_booking_status status) (some "Flex booking status update")
          by _
          (Triple-bind (λ _. DbIsLogged) _ _
            (frame_rule _ IsLogged _ (λ _ _. tt) (approve_when-SameLog env _ b.id))
            λ _. Triple-pure _ (λ _ h. h)))

update_registry_rule :
    (env : Env) (dto : UpdateFlexBooking) (f : FlexBooking) (by : Option Actor) (o : Option Booking)
    → Triple
        (λ _. Unit)
        (λ s. ((b : Booking) → o ≡ some b → StandsAt b.id b.status s) × DbIsLogged s)
        (update_registry env dto f by o)
        (λ _. DbIsLogged)
unfolding update_registry
update_registry_rule env dto f by none = Triple-pure none (λ _ p. p.1)
update_registry_rule env dto f by (some b) =
    Triple-weaken (StandsAt b.id b.status) _ (λ s p. p.0 b refl)
      (Triple-bind (λ _. StandsAt b.id b.status) _ _
        (update_booking_keeps_StandsAt b.id (apply_registry_update dto f) (λ _. refl) (λ _. refl)
          b.id b.status)
        λ _.
          Triple-bind (λ _. StandsAt b.id b.status) _ _
            (Triple-when _ _
              (λ _.
                frame_rule _ (StandsIn b.id b.status) _ (λ _ _. tt)
                  (reprice_after-SameLog env dto f b))
              (λ _ p. p))
            λ _. move_registry_rule env (written_status dto.status) b by)

write_update_rule :
    (env : Env) (id : ℕ) (dto : UpdateFlexBooking) (f : FlexBooking) (by : Option Actor)
    → Triple DbIsLogged DbIsLogged (write_update env id dto f by) (λ _. DbIsLogged)
unfolding write_update
write_update_rule env id dto f by =
    Triple-transaction _ (λ _ h. h)
      (Triple-bind (λ _. DbIsLogged) _ _
        (frame_rule _ IsLogged _ (λ _ _. tt)
          (update_flex_booking-SameLog id (apply_flex_update dto f)))
        λ _. Triple-bind _ _ _ (registry_rule _ id) λ o. update_registry_rule env dto f by o)

cancel_registry_rule :
    (reason : String) (by : Option Actor) (o : Option Booking)
    → Triple DbIsLogged DbIsLogged (cancel_registry reason by o) (λ _. DbIsLogged)
unfolding cancel_registry
cancel_registry_rule reason by none = Triple-pure tt (λ _ h. h)
cancel_registry_rule reason by (some b) =
    Triple-when _ _ (λ _. execute_cancellation_rule b.id reason _) (λ _ h. h)

notify_confirmed-SameLog : (o : Option ℕ) (s : Db) → SameLog s (notify_confirmed o s)
unfolding notify_confirmed ◌>>=◌
notify_confirmed-SameLog none s = (refl, refl)
notify_confirmed-SameLog (some b) s = (refl, refl)

-- After `update` of a flex booking, whatever status it sets.
pub update_flex-IsLogged :
    (env : Env) (id : ℕ) (dto : UpdateFlexBooking) (by : Option Actor) (s : Db)
    → DbIsLogged s
    → DbIsLogged (update_flex env id dto by s).1
unfolding update_flex
update_flex-IsLogged env id dto by s l =
    Triple-final DbIsLogged DbIsLogged (update_flex env id dto by) s
      (Triple-bind (λ _. DbIsLogged) _ _
        (frame_rule _ IsLogged _ (λ _ h. h) (find_flex_booking-SameLog id))
        λ f.
          Triple-bind (λ _. DbIsLogged) _ _ (Triple-throw_if _ bad_request (λ _ h. h) (λ _ _ h. h))
            λ _.
              Triple-bind (λ _. DbIsLogged) _ _ (Triple-gets _ (λ _ h. h))
                λ taken.
                  Triple-bind (λ _. DbIsLogged) _ _
                    (Triple-throw_if _ bad_request (λ _ h. h) (λ _ _ h. h))
                    λ _.
                      Triple-bind (λ _. DbIsLogged) _ _ (write_update_rule env id dto f by)
                        λ c.
                          Triple-bind (λ _. DbIsLogged) _ _
                            (Triple-when _ _
                              (λ _.
                                Triple-bind (λ _. DbIsLogged) _ _ (Triple-gets _ (λ _ h. h))
                                  λ o. cancel_registry_rule (cancellation_reason dto.notes) by o)
                              (λ _ h. h))
                            λ _.
                              Triple-when _ _
                                (λ _.
                                  frame_rule _ IsLogged _ (λ _ h. h) (notify_confirmed-SameLog c))
                                (λ _ h. h))
      l

delete_registry_rule :
    (env : Env) (o : Option Booking)
    → Triple DbIsLogged DbIsLogged (delete_registry env o) (λ _. DbIsLogged)
unfolding delete_registry
delete_registry_rule env none = Triple-pure tt (λ _ h. h)
delete_registry_rule env (some b) = update_booking_keeps b.id _ (λ _. refl) (λ _. refl) _ (λ _ h. h)

-- After `softDelete` of a flex booking.
pub soft_delete_flex-IsLogged :
    (env : Env) (id : ℕ) (by : Option Actor) (s : Db)
    → DbIsLogged s
    → DbIsLogged (soft_delete_flex env id by s).1
unfolding soft_delete_flex
soft_delete_flex-IsLogged env id by s l =
    Triple-final DbIsLogged DbIsLogged (soft_delete_flex env id by) s
      (Triple-bind (λ _. DbIsLogged) _ _
        (frame_rule _ IsLogged _ (λ _ h. h) (find_flex_booking-SameLog id))
        λ _.
          Triple-bind (λ _. DbIsLogged) _ _ (Triple-gets _ (λ _ h. h))
            λ o.
              Triple-bind (λ _. DbIsLogged) _ _ (cancel_registry_rule "Flex booking cancelled" by o)
                λ _.
                  Triple-bind (λ _. DbIsLogged) _ _
                    (frame_rule _ IsLogged _ (λ _ h. h) (update_flex_booking-SameLog id _))
                    λ _. delete_registry_rule env o)
      l
