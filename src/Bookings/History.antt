-- ===== src/Bookings/History.antt =====
-- Every method of `BookingsService` (src/modules/bookings/bookings.service.ts) keeps the registry
-- and its history together.
use deptoflex_back.Store.Hoare.{
  Triple, Triple-bind, Triple-final, Triple-gets, Triple-modify, Triple-pure, Triple-throw_if,
  Triple-transaction, Triple-weaken,
}
use deptoflex_back.Bookings.Rules.{
  DbIsLogged, SameLog, StandsAt, StandsIn, add_history_rule, find_booking_rule, frame_rule,
  move_rule, send_rule, update_booking_keeps, update_booking_rule,
}
use deptoflex_back.Bookings.Service.{
  CreateBooking, UpdateBooking, apply_update, block_unit, cancel_flex_booking, complete, confirm,
  create_booking, create_temporal_commission, execute_cancellation, new_booking, settle_commission,
  soft_delete, update,
}
use deptoflex_back.History.{IsFresh, IsLogged}
use deptoflex_back.Prelude.{Option, String, arith, none, refl, some, ℕ}
use deptoflex_back.Store.{
  Actor, Booking, BookingStatus, Commission, Db, Env, Message, add_commission, bad_request,
  database, update_commissions, update_flex_booking, ◌>>=◌,
}
use deptoflex_back.Workflow.{approve_trusted_temporal_on_confirm}
use deptoflex_back.Bookings.Added.{add_booking_rule}

block_unit-SameLog : (b : Booking) (unit : Option ℕ) (s : Db) → SameLog s (block_unit b unit s)
unfolding block_unit ◌>>=◌
block_unit-SameLog b none s = (refl, refl)
block_unit-SameLog b (some unit) s = (refl, refl)

settle_commission-SameLog :
    (env : Env) (b : Booking) (c : Option Commission) (s : Db)
    → SameLog s (settle_commission env b c s)
unfolding settle_commission create_temporal_commission approve_trusted_temporal_on_confirm
    add_commission update_commissions ◌>>=◌
settle_commission-SameLog env b c s = (ground arith, ground arith)

-- After `confirm`, whether it returns or throws, the history replayed gives the registry.
pub confirm-IsLogged :
    (env : Env) (id : ℕ) (reason : Option String) (by : Actor) (s : Db)
    → DbIsLogged s
    → DbIsLogged (confirm env id reason by s).1
unfolding confirm
confirm-IsLogged env id reason by s l =
    Triple-final DbIsLogged DbIsLogged (confirm env id reason by) s
      (Triple-bind (λ b. StandsAt id b.status) _ _ (find_booking_rule id (λ _ h. h))
        λ b.
          Triple-bind (λ _. StandsAt id BookingStatus.pending) _ _
            (Triple-throw_if _ bad_request (λ _ p. p.0) (λ e s p. ground (arith, p.0, p.1, p.2)))
            λ _.
              Triple-bind (λ _. DbIsLogged) _ _
                (Triple-transaction _ (λ _ p. p.0)
                  (move_rule id BookingStatus.pending BookingStatus.confirmed reason (some by) _ (
                    Triple-bind (λ _. DbIsLogged) _ _
                      (frame_rule _ IsLogged _ (λ _ _. tt) (block_unit-SameLog b b.unit_id))
                      λ _.
                        Triple-bind (λ _. DbIsLogged) _ _ (Triple-gets _ (λ _ h. h))
                          λ c.
                            frame_rule _ IsLogged _ (λ _ _. tt)
                              (settle_commission-SameLog env b c))))
                λ _. send_rule (Message.booking_confirmed id))
      l

cancel_flex_booking-SameLog : (id : Option ℕ) (s : Db) → SameLog s (cancel_flex_booking id s)
unfolding cancel_flex_booking update_flex_booking ◌>>=◌
cancel_flex_booking-SameLog none s = (refl, refl)
cancel_flex_booking-SameLog (some id) s = (ground arith, ground arith)

pub execute_cancellation_rule :
    (id : ℕ) (reason : String) (by : Actor)
    → Triple DbIsLogged DbIsLogged (execute_cancellation id reason by) (λ _. DbIsLogged)
unfolding execute_cancellation update_commissions
execute_cancellation_rule id reason by =
    Triple-bind (λ b. StandsAt id b.status) _ _ (find_booking_rule id (λ _ h. h))
      λ b.
        Triple-bind (λ _. StandsAt id b.status) _ _
          (Triple-throw_if _ bad_request (λ _ p. p.0) (λ _ _ p. p))
          λ _.
            Triple-bind (λ _. StandsAt id b.status) _ _
              (Triple-throw_if _ bad_request (λ _ p. p.0) (λ _ _ p. p))
              λ _.
                Triple-bind (λ _. DbIsLogged) _ _
                  (Triple-transaction _ (λ _ p. p.0)
                    (Triple-bind (λ _. StandsAt id b.status) _ _
                      (frame_rule _ (StandsIn id b.status) _ (λ _ _. tt)
                        (cancel_flex_booking-SameLog b.flex_booking_id))
                      λ _. move_rule id b.status BookingStatus.cancelled (some reason) (some by) _ (
                        Triple-bind (λ _. DbIsLogged) _ _ (Triple-modify _ (λ _ h. h))
                          λ _. Triple-modify _ (λ _ h. h))))
                  λ _. send_rule (Message.booking_cancelled id reason)

-- After `executeCancellation` too.
pub execute_cancellation-IsLogged :
    (id : ℕ) (reason : String) (by : Actor) (s : Db)
    → DbIsLogged s
    → DbIsLogged (execute_cancellation id reason by s).1
execute_cancellation-IsLogged id reason by s l =
    Triple-final DbIsLogged DbIsLogged (execute_cancellation id reason by) s
      (execute_cancellation_rule id reason by) l

-- After `complete` too.
pub complete-IsLogged :
    (id : ℕ) (reason : Option String) (by : Actor) (s : Db)
    → DbIsLogged s
    → DbIsLogged (complete id reason by s).1
unfolding complete
complete-IsLogged id reason by s l =
    Triple-final DbIsLogged DbIsLogged (complete id reason by) s
      (Triple-bind (λ b. StandsAt id b.status) _ _ (find_booking_rule id (λ _ h. h))
        λ b.
          Triple-bind (λ _. StandsAt id BookingStatus.confirmed) _ _
            (Triple-throw_if _ bad_request (λ _ p. p.0) (λ e s p. ground (arith, p.0, p.1, p.2)))
            λ _.
              Triple-transaction _ (λ _ p. p.0)
                (Triple-bind _ _ _
                  (update_booking_rule id BookingStatus.confirmed BookingStatus.completed reason
                    (some by) _ (λ _ _. tt))
                  λ _.
                    add_history_rule id (some BookingStatus.confirmed) BookingStatus.completed
                      reason (some by)))
      l

-- `update` changes no status, and the invariant holds after it.
pub update-IsLogged :
    (id : ℕ) (dto : UpdateBooking) (s : Db) → DbIsLogged s → DbIsLogged (update id dto s).1
unfolding update apply_update
update-IsLogged id dto s l =
    Triple-final DbIsLogged DbIsLogged (update id dto) s
      (Triple-bind (λ b. StandsAt id b.status) _ _ (find_booking_rule id (λ _ h. h))
        λ b.
          Triple-bind (λ _. DbIsLogged) _ _
            (Triple-throw_if _ bad_request (λ _ p. p.0) (λ _ _ p. p.0))
            λ _.
              Triple-bind (λ _. DbIsLogged) _ _
                (Triple-throw_if _ bad_request (λ _ h. h) (λ _ _ h. h))
                λ _.
                  Triple-bind (λ _. DbIsLogged) _ _
                    (Triple-throw_if _ bad_request (λ _ h. h) (λ _ _ h. h))
                    λ _.
                      update_booking_keeps id (apply_update dto) (λ _. refl) (λ _. refl) _
                        (λ _ h. h))
      l

-- `create` starts the history of a new booking, given that the generated id is not in use.
pub create_booking-IsLogged :
    (env : Env) (dto : CreateBooking) (by : Actor) (s : Db)
    → IsFresh env.fresh
    → DbIsLogged s
    → DbIsLogged (create_booking env dto by s).1
unfolding create_booking new_booking
create_booking-IsLogged env dto by s f l =
    Triple-final DbIsLogged DbIsLogged (create_booking env dto by) s
      (Triple-bind (λ _. DbIsLogged) _ _ (Triple-throw_if _ bad_request (λ _ h. h) (λ _ _ h. h))
        λ _.
          Triple-transaction _ (λ _ h. h)
            (Triple-bind (λ _. DbIsLogged) _ _ (Triple-gets _ (λ _ h. h))
              λ taken.
                Triple-bind (λ _. DbIsLogged) _ _
                  (Triple-throw_if taken database (λ _ _. tt) (λ _ _ h. h))
                  λ _.
                    add_booking_rule env f (new_booking env dto) (λ _. refl) BookingStatus.pending
                      (λ _. refl) none (some by) _ (λ b. Triple-pure b.id (λ _ h. h))))
      l

-- `softDelete` leaves the status alone.
pub soft_delete-IsLogged :
    (env : Env) (id : ℕ) (s : Db) → DbIsLogged s → DbIsLogged (soft_delete env id s).1
unfolding soft_delete
soft_delete-IsLogged env id s l =
    Triple-final DbIsLogged DbIsLogged (soft_delete env id) s
      (Triple-bind (λ b. StandsAt id b.status) _ _ (find_booking_rule id (λ _ h. h))
        λ b.
          Triple-weaken DbIsLogged _ (λ _ p. p.0)
            (update_booking_keeps id _ (λ _. refl) (λ _. refl) _ (λ _ h. h)))
      l
