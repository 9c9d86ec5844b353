-- ===== src/Cloudbeds/History.antt =====
-- src/modules/cloudbeds beside the registry of bookings and its history.
use deptoflex_back.Bookings.Added.{add_booking_rule}
use deptoflex_back.Bookings.Rules.{DbIsLogged, SameLog, frame_rule, send_rule}
use deptoflex_back.Cloudbeds.Confirm.{
  confirm_from_cloudbeds, confirm_intent, create_cloudbeds_commission, expire_pending_intents,
  mark_redirected, register_new, register_once, register_reservation, reservation_of,
}
use deptoflex_back.Cloudbeds.Intents.{
  ConfirmReservation, CreateReservationIntent, IntentContext, Reservation, cloudbeds_booking,
  create_intent, intent_of, search_of_intent,
}
use deptoflex_back.Cloudbeds.Provider.{BookingProvider, CloudbedsConfig, Confirmation}
use deptoflex_back.Cloudbeds.Requests.{CloudbedsRequest, serve_cloudbeds}
use deptoflex_back.Cloudbeds.Search.{SearchAvailability, search_availability}
use deptoflex_back.Cloudbeds.Searches.{search_availability-same}
use deptoflex_back.History.{IsFresh, IsLogged}
use deptoflex_back.Prelude.{Option, arith, none, refl, some, ℕ}
use deptoflex_back.Store.{Booking, BookingStatus, Db, Env, ReservationIntent, add_commission, ◌>>=◌}
use deptoflex_back.Store.Hoare.{
  Triple, Triple-bind, Triple-final, Triple-gets, Triple-modify, Triple-or_throw, Triple-pure,
  Triple-throw_if, Triple-transaction,
}

search_rule :
    (env : Env) (cfg : CloudbedsConfig) (engine : BookingProvider) (dto : SearchAvailability)
    → Triple DbIsLogged DbIsLogged (search_availability env cfg engine dto) (λ _. DbIsLogged)
search_rule env cfg engine dto =
    frame_rule _ IsLogged _ (λ _ h. h)
      (λ s.
        let same = search_availability-same env cfg engine dto s in (same.bookings, same.history))

create_intent_rule :
    (env : Env) (cfg : CloudbedsConfig) (engine : BookingProvider) (dto : CreateReservationIntent)
    (context : IntentContext)
    → Triple DbIsLogged DbIsLogged (create_intent env cfg engine dto context) (λ _. DbIsLogged)
unfolding create_intent
create_intent_rule env cfg engine dto context =
    Triple-bind (λ _. DbIsLogged) _ _ (Triple-gets _ (λ _ h. h))
      λ found.
        Triple-bind (λ _. DbIsLogged) _ _ (Triple-or_throw found _ (λ _ h. h) (λ _ _ _ h. h))
          λ p.
            Triple-bind (λ _. DbIsLogged) _ _ (Triple-or_throw _ _ (λ _ h. h) (λ _ _ _ h. h))
              λ external.
                Triple-bind (λ _. DbIsLogged) _ _
                  (search_rule env cfg engine (search_of_intent dto external))
                  λ answer.
                    Triple-bind (λ _. DbIsLogged) _ _
                      (Triple-or_throw _ _ (λ _ h. h) (λ _ _ _ h. h))
                      λ room.
                        Triple-bind (λ _. DbIsLogged) _ _
                          (Triple-throw_if _ _ (λ _ h. h) (λ _ _ h. h))
                          λ _.
                            Triple-bind (λ _. DbIsLogged) _ _ (Triple-gets _ (λ _ h. h))
                              λ intent.
                                Triple-bind (λ _. DbIsLogged) _ _ (Triple-modify _ (λ _ h. h))
                                  λ _. Triple-pure _ (λ _ h. h)

create_cloudbeds_commission-SameLog :
    (env : Env) (b : Booking) (property : ℕ) (profile : Option ℕ) (s : Db)
    → SameLog s (create_cloudbeds_commission env b property profile s)
unfolding create_cloudbeds_commission add_commission ◌>>=◌
create_cloudbeds_commission-SameLog env b property none s = (refl, refl)
create_cloudbeds_commission-SameLog env b property (some p) s = (ground arith, ground arith)

confirm_intent-SameLog : (i : Option ReservationIntent) (s : Db) → SameLog s (confirm_intent i s)
unfolding confirm_intent ◌>>=◌
confirm_intent-SameLog none s = (refl, refl)
confirm_intent-SameLog (some i) s = (ground arith, ground arith)

intent_of-SameLog : (id : Option ℕ) (s : Db) → SameLog s (intent_of id s)
unfolding intent_of ◌>>=◌
intent_of-SameLog none s = (refl, refl)
intent_of-SameLog (some i) s = (ground arith, ground arith)

register_reservation_rule :
    (env : Env) (r : Reservation)
    → IsFresh env.fresh
    → Triple DbIsLogged DbIsLogged (register_reservation env r) (λ _. DbIsLogged)
unfolding register_reservation cloudbeds_booking
register_reservation_rule env r f =
    Triple-transaction _ (λ _ h. h)
      (Triple-bind (λ _. DbIsLogged) _ _ (Triple-gets _ (λ _ h. h))
        λ _.
          Triple-bind (λ _. DbIsLogged) _ _ (Triple-throw_if _ _ (λ _ _. tt) (λ _ _ h. h))
            λ _.
              Triple-bind (λ _. DbIsLogged) _ _ (Triple-gets _ (λ _ h. h))
                λ _.
                  Triple-bind (λ _. DbIsLogged) _ _ (Triple-throw_if _ _ (λ _ _. tt) (λ _ _ h. h))
                    λ _.
                      add_booking_rule env f (cloudbeds_booking env r) (λ _. refl)
                        BookingStatus.confirmed (λ _. refl) (some "Cloudbeds confirmation") none _
                        λ b.
                          Triple-bind (λ _. DbIsLogged) _ _
                            (frame_rule _ IsLogged _ (λ _ _. tt)
                              (create_cloudbeds_commission-SameLog env b r.property_id
                                r.professional_profile_id))
                            λ _.
                              Triple-bind (λ _. DbIsLogged) _ _
                                (frame_rule _ IsLogged _ (λ _ _. tt)
                                  (confirm_intent-SameLog r.intent))
                                λ _. Triple-pure _ (λ _ h. h))

register_once_rule :
    (env : Env) (dto : ConfirmReservation) (intent : Option ReservationIntent) (conf : Confirmation)
    (property : ℕ) (existing : Option Booking)
    → IsFresh env.fresh
    → Triple DbIsLogged DbIsLogged
        (register_once env dto intent conf property existing)
        (λ _. DbIsLogged)
unfolding register_once register_new
register_once_rule env dto intent conf property (some b) f = Triple-pure _ (λ _ h. h)
register_once_rule env dto intent conf property none f =
    Triple-bind (λ _. DbIsLogged) _ _ (Triple-or_throw _ _ (λ _ h. h) (λ _ _ _ h. h))
      λ check_in.
        Triple-bind (λ _. DbIsLogged) _ _ (Triple-or_throw _ _ (λ _ h. h) (λ _ _ _ h. h))
          λ check_out.
            Triple-bind (λ _. DbIsLogged) _ _ (Triple-gets _ (λ _ h. h))
              λ unit.
                Triple-bind (λ _. DbIsLogged) _ _
                  (register_reservation_rule env
                    (reservation_of dto intent conf property unit check_in check_out) f)
                  λ id.
                    Triple-bind (λ _. DbIsLogged) _ _ (send_rule _) λ _. Triple-pure _ (λ _ h. h)

confirm_rule :
    (env : Env) (engine : BookingProvider) (dto : ConfirmReservation)
    → IsFresh env.fresh
    → Triple DbIsLogged DbIsLogged (confirm_from_cloudbeds env engine dto) (λ _. DbIsLogged)
unfolding confirm_from_cloudbeds
confirm_rule env engine dto f =
    Triple-bind (λ _. DbIsLogged) _ _
      (frame_rule _ IsLogged _ (λ _ h. h) (intent_of-SameLog dto.reservation_intent_id))
      λ intent.
        Triple-bind (λ _. DbIsLogged) _ _ (Triple-or_throw _ _ (λ _ h. h) (λ _ _ _ h. h))
          λ conf.
            Triple-bind (λ _. DbIsLogged) _ _ (Triple-gets _ (λ _ h. h))
              λ property.
                Triple-bind (λ _. DbIsLogged) _ _
                  (Triple-or_throw property _ (λ _ h. h) (λ _ _ _ h. h))
                  λ property.
                    Triple-bind (λ _. DbIsLogged) _ _ (Triple-gets _ (λ _ h. h))
                      λ existing. register_once_rule env dto intent conf property existing f

-- Every request of the module keeps the registry and its history together, given that no generated
-- id is in use.
pub serve_cloudbeds-IsLogged :
    (env : Env) (cfg : CloudbedsConfig) (engine : BookingProvider) (r : CloudbedsRequest) (s : Db)
    → IsFresh env.fresh
    → DbIsLogged s
    → DbIsLogged (serve_cloudbeds env cfg engine r s)
unfolding serve_cloudbeds mark_redirected expire_pending_intents ◌>>=◌
serve_cloudbeds-IsLogged env cfg engine (CloudbedsRequest.search dto) s f l =
    Triple-final DbIsLogged DbIsLogged _ s (search_rule env cfg engine dto) l
serve_cloudbeds-IsLogged env cfg engine (CloudbedsRequest.open_intent dto context) s f l =
    Triple-final DbIsLogged DbIsLogged _ s (create_intent_rule env cfg engine dto context) l
serve_cloudbeds-IsLogged env cfg engine (CloudbedsRequest.confirm_reservation dto) s f l =
    Triple-final DbIsLogged DbIsLogged _ s (confirm_rule env engine dto f) l
serve_cloudbeds-IsLogged env cfg engine (CloudbedsRequest.redirected id) s f l = l
serve_cloudbeds-IsLogged env cfg engine CloudbedsRequest.expire s f l = l
