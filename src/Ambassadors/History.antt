-- ===== src/Ambassadors/History.antt =====
-- The notice of a reservation beside the registry's history.
use deptoflex_back.Ambassadors.Notice.{
  ReservationNotice, handle_cloudbeds_reservation, notice_in, notice_once, noticed_row,
  register_notice,
}
use deptoflex_back.Bookings.Added.{add_booking_rule}
use deptoflex_back.Bookings.Rules.{DbIsLogged, SameLog, frame_rule}
use deptoflex_back.History.{IsFresh, IsLogged}
use deptoflex_back.Prelude.{Option, String, arith, none, refl, some, ℕ}
use deptoflex_back.Store.{AmbassadorSession, BookingStatus, Commission, Db, Env, add_commission}
use deptoflex_back.Store.Hoare.{
  Triple, Triple-bind, Triple-branch, Triple-gets, Triple-modify, Triple-pure, Triple-throw_if,
  Triple-transaction,
}

module _ (env : Env) (f : IsFresh env.fresh) (dto : ReservationNotice) where
  add_commission-SameLog : (c : Commission) (s : Db) → SameLog s (add_commission c s)
  unfolding add_commission
  add_commission-SameLog c s = (ground arith, ground arith)

  register_notice_rule :
      (session : AmbassadorSession) (place : Option ℕ × Option ℕ)
      → Triple DbIsLogged DbIsLogged (register_notice env dto session place) (λ _. DbIsLogged)
  unfolding register_notice noticed_row
  register_notice_rule session place =
      Triple-transaction _ (λ _ h. h)
        (Triple-bind (λ _. DbIsLogged) _ _ (Triple-gets _ (λ _ h. h))
          λ _.
            Triple-bind (λ _. DbIsLogged) _ _ (Triple-throw_if _ _ (λ _ _. tt) (λ _ _ h. h))
              λ _.
                add_booking_rule env f (noticed_row env dto session place) (λ _. refl)
                  BookingStatus.pending (λ _. refl) _ none _
                  λ b.
                    Triple-bind (λ _. DbIsLogged) _ _ (Triple-gets _ (λ _ h. h))
                      λ rate.
                        Triple-bind (λ _. DbIsLogged) _ _ (Triple-gets _ (λ _ h. h))
                          λ c.
                            Triple-bind (λ _. DbIsLogged) _ _
                              (frame_rule _ IsLogged _ (λ _ _. tt) (add_commission-SameLog c))
                              λ _.
                                Triple-bind (λ _. DbIsLogged) _ _ (Triple-modify _ (λ _ h. h))
                                  λ _. Triple-pure _ (λ _ h. h))

  notice_once_rule :
      (session : AmbassadorSession) (existing : Option ℕ)
      → Triple DbIsLogged DbIsLogged (notice_once env dto session existing) (λ _. DbIsLogged)
  unfolding notice_once
  notice_once_rule session (some id) = Triple-pure _ (λ _ h. h)
  notice_once_rule session none =
      Triple-bind (λ _. DbIsLogged) _ _ (Triple-gets _ (λ _ h. h))
        λ _.
          Triple-bind (λ _. DbIsLogged) _ _ (Triple-gets _ (λ _ h. h))
            λ place.
              Triple-bind (λ _. DbIsLogged) _ _ (register_notice_rule session place)
                λ _. Triple-pure _ (λ _ h. h)

  notice_in_rule :
      (hash : String → ℕ) (session : Option AmbassadorSession)
      → Triple DbIsLogged DbIsLogged (notice_in env hash dto session) (λ _. DbIsLogged)
  unfolding notice_in
  notice_in_rule hash none = Triple-pure _ (λ _ h. h)
  notice_in_rule hash (some session) =
      Triple-branch _ _ _ (λ _. Triple-pure _ (λ _ h. h))
        (λ _.
          Triple-branch _ _ _ (λ _. Triple-pure _ (λ _ h. h))
            (λ _.
              Triple-bind (λ _. DbIsLogged) _ _ (Triple-gets _ (λ _ h. h))
                λ existing. notice_once_rule session existing))

  -- The notice, whatever it says.
  pub handle_cloudbeds_reservation_rule :
      (hash : String → ℕ)
      → Triple DbIsLogged DbIsLogged (handle_cloudbeds_reservation env hash dto) (λ _. DbIsLogged)
  unfolding handle_cloudbeds_reservation
  handle_cloudbeds_reservation_rule hash =
      Triple-bind (λ _. DbIsLogged) _ _ (Triple-gets _ (λ _ h. h))
        λ session. notice_in_rule hash session
