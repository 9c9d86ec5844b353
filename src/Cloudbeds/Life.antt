-- ===== src/Cloudbeds/Life.antt =====
-- The life of a reservation intent (reservation-intents.service.ts), as the specification of the
-- module's requests.
use deptoflex_back.Prelude.{
  Bool, Extends, Extends-create, List, Option, String, [], arith, create, none, refl, some, true,
  update_many, ℕ, ◌<◌, ◌===◌, ◌==◌, ◌∷◌, ◌≡◌,
}
use deptoflex_back.Prelude.Table.Laws.{Extends-update_many}
use deptoflex_back.Store.{
  Action, Booking, BookingStatus, Db, Env, IntentStatus, ReservationIntent, add_commission,
  add_history, booking_status_enum, intent_status_enum, send, ◌>>=◌,
}
use deptoflex_back.Store.Hoare.{Triple-invariant, Triple-modify}
use deptoflex_back.Store.Invariant.{
  Keeps, Keeps-bind, Keeps-gets, Keeps-modify, Keeps-or_throw, Keeps-pure, Keeps-throw_if,
  Keeps-transaction,
}
use deptoflex_back.Cloudbeds.Confirm.{
  confirm_from_cloudbeds, confirm_intent, create_cloudbeds_commission, register_new, register_once,
  register_reservation, reservation_of, set_intent_status,
}
use deptoflex_back.Cloudbeds.Intents.{
  ConfirmReservation, CreateReservationIntent, IntentContext, Reservation, create_intent, intent_of,
  search_of_intent,
}
use deptoflex_back.Cloudbeds.Provider.{BookingProvider, CloudbedsConfig, Confirmation}
use deptoflex_back.Cloudbeds.Search.{SearchAvailability, search_availability}
use deptoflex_back.Cloudbeds.Searches.{search_availability-same}
use deptoflex_back.Cloudbeds.Requests.{CloudbedsRequest}

-- What a request at a time may do to an intent. The data of an intent never change.
pub data IntentStep : ℕ → CloudbedsRequest → ReservationIntent → ReservationIntent → Type 0 where
  redirects :
      (now asked : ℕ) (i : ReservationIntent)
      → i.id ≡ asked
      → i.status ≡ IntentStatus.pending
      → IntentStep now
          (CloudbedsRequest.redirected asked)
          i
          (record i { status = IntentStatus.redirected; redirected_at = some now })
  expires :
      (now : ℕ) (i : ReservationIntent)
      → i.status ≡ IntentStatus.pending
      → i.expires_at < now
      → IntentStep now CloudbedsRequest.expire i (record i { status = IntentStatus.expired })
  confirms :
      (now : ℕ) (dto : ConfirmReservation) (i : ReservationIntent)
      → IntentStep now
          (CloudbedsRequest.confirm_reservation dto)
          i
          (record i { status = IntentStatus.confirmed })

-- Any number of such steps, all of one request at one time
pub data IntentReach : ℕ → CloudbedsRequest → ReservationIntent → ReservationIntent → Type 0 where
  stays : (now : ℕ) (r : CloudbedsRequest) (i : ReservationIntent) → IntentReach now r i i
  goes :
      (now : ℕ) (r : CloudbedsRequest) (i j k : ReservationIntent)
      → IntentReach now r i j
      → IntentStep now r j k
      → IntentReach now r i k

-- The life of an intent through requests, each at its time
pub data IntentLife
    : List (ℕ × CloudbedsRequest) → ReservationIntent → ReservationIntent → Type 0 where
  ends : (i : ReservationIntent) → IntentLife [] i i
  lives :
      (now : ℕ) (r : CloudbedsRequest) (rs : List (ℕ × CloudbedsRequest))
      (i j k : ReservationIntent)
      → IntentReach now r i j
      → IntentLife rs j k
      → IntentLife ((now, r) ∷ rs) i k

-- Every row of the table has come to where it is by steps of the request, and rows are only added.
abbrev pub Grown : ℕ → CloudbedsRequest → List ReservationIntent → Db → Type 0
Grown now r xs s = Extends (IntentReach now r) xs s.reservation_intents

pub intent_status_lem : (t u : IntentStatus) → (t === u) ≡ true → t ≡ u
intent_status_lem t u e = ground (arith, e)

module _ (now : ℕ) (request : CloudbedsRequest) (xs : List ReservationIntent) where
  -- An update of the table by steps
  pub step_rows :
      (p : ReservationIntent → Bool) (f : ReservationIntent → ReservationIntent)
      → ((i : ReservationIntent) → p i ≡ true → IntentStep now request i (f i))
      → (ys : List ReservationIntent) → Extends (IntentReach now request) xs ys
      → Extends (IntentReach now request) xs (update_many p f ys)
  step_rows p f h ys e =
      Extends-update_many (IntentReach now request) p f
        (λ i j r t. goes now request i j (f j) r (h j t)) xs ys e

  add_row :
      (i : ReservationIntent) (ys : List ReservationIntent)
      → Extends (IntentReach now request) xs ys
      → Extends (IntentReach now request) xs (create i ys)
  add_row i ys e = Extends-create (IntentReach now request) i xs ys e

  intents_rule :
      {A : Type 0} (m : Action A)
      → ((s : Db) → (m s).1.reservation_intents ≡ s.reservation_intents)
      → Keeps (Grown now request xs) m
  intents_rule m e = Triple-invariant (Grown now request xs) m (λ s r. rw (e s) r)

  commission_rule :
      (env : Env) (b : Booking) (property : ℕ) (profile : Option ℕ)
      → Keeps (Grown now request xs) (create_cloudbeds_commission env b property profile)
  unfolding create_cloudbeds_commission add_commission ◌>>=◌
  commission_rule env b property none = Keeps-pure (Grown now request xs) _
  commission_rule env b property (some p) = intents_rule _ (λ s. ground arith)

  history_rule :
      (id : ℕ) (to : BookingStatus) (reason : Option String)
      → Keeps (Grown now request xs) (add_history id none to reason none)
  unfolding add_history ◌>>=◌
  history_rule id to reason = intents_rule _ (λ s. refl)

  intent_of_rule : (id : Option ℕ) → Keeps (Grown now request xs) (intent_of id)
  unfolding intent_of ◌>>=◌
  intent_of_rule none = Keeps-pure (Grown now request xs) _
  intent_of_rule (some id) = intents_rule _ (λ s. ground arith)

  pub search_rule :
      (env : Env) (cfg : CloudbedsConfig) (engine : BookingProvider) (dto : SearchAvailability)
      → Keeps (Grown now request xs) (search_availability env cfg engine dto)
  search_rule env cfg engine dto =
      intents_rule _ (λ s. (search_availability-same env cfg engine dto s).intents)

  pub create_intent_rule :
      (env : Env) (cfg : CloudbedsConfig) (engine : BookingProvider) (dto : CreateReservationIntent)
      (context : IntentContext)
      → Keeps (Grown now request xs) (create_intent env cfg engine dto context)
  unfolding create_intent
  create_intent_rule env cfg engine dto context = Keeps-gets (Grown now request xs) _ _ λ found.
      Keeps-or_throw (Grown now request xs) found _ _ λ p.
        Keeps-or_throw (Grown now request xs) _ _ _ λ external.
          Keeps-bind (Grown now request xs) _ _
            (search_rule env cfg engine (search_of_intent dto external))
            λ answer. Keeps-or_throw (Grown now request xs) _ _ _ λ room.
              Keeps-throw_if (Grown now request xs) _ _ _ (
                Keeps-gets (Grown now request xs) _ _ λ i.
                  Keeps-modify (Grown now request xs) _ _ (λ s e. add_row i s.reservation_intents e)
                    (Keeps-pure (Grown now request xs) _))

module _ (now : ℕ) (dto : ConfirmReservation) (xs : List ReservationIntent) where
  abbrev Reached : Db → Type 0
  Reached = Grown now (CloudbedsRequest.confirm_reservation dto) xs

  confirm_intent_rule : (i : Option ReservationIntent) → Keeps Reached (confirm_intent i)
  unfolding confirm_intent
  confirm_intent_rule none = Keeps-pure Reached _
  confirm_intent_rule (some i) = Keeps-gets Reached _ _ λ found. Keeps-throw_if Reached _ _ _ (
      Triple-modify _ (λ s e.
        step_rows now (CloudbedsRequest.confirm_reservation dto) xs (λ j. j.id == i.id)
          (set_intent_status IntentStatus.confirmed) (λ j _. confirms now dto j)
          s.reservation_intents e))

  register_reservation_rule :
      (env : Env) (r : Reservation) → Keeps Reached (register_reservation env r)
  unfolding register_reservation
  register_reservation_rule env r = Keeps-transaction Reached _ (
      Keeps-gets Reached _ _ λ _. Keeps-throw_if Reached _ _ _ (
        Keeps-gets Reached _ _ λ _. Keeps-throw_if Reached _ _ _ (
          Keeps-gets Reached _ _ λ b.
            Keeps-modify Reached _ _ (λ _ e. e)
              (Keeps-bind Reached _ _
                (history_rule now (CloudbedsRequest.confirm_reservation dto) xs b.id _ _)
                λ _.
                  Keeps-bind Reached _ _
                    (commission_rule now (CloudbedsRequest.confirm_reservation dto) xs env b
                      r.property_id r.professional_profile_id)
                    λ _.
                      Keeps-bind Reached _ _ (confirm_intent_rule r.intent)
                        λ _. Keeps-pure Reached _))))

  register_once_rule :
      (env : Env) (intent : Option ReservationIntent) (conf : Confirmation) (property : ℕ)
      (existing : Option Booking)
      → Keeps Reached (register_once env dto intent conf property existing)
  unfolding register_once register_new send
  register_once_rule env intent conf property (some b) = Keeps-pure Reached _
  register_once_rule env intent conf property none = Keeps-or_throw Reached _ _ _ λ check_in.
      Keeps-or_throw Reached _ _ _ λ check_out. Keeps-gets Reached _ _ λ unit.
        Keeps-bind Reached _ _
          (register_reservation_rule env
            (reservation_of dto intent conf property unit check_in check_out))
          λ id. Keeps-modify Reached _ _ (λ _ e. e) (Keeps-pure Reached _)

  pub confirm_rule :
      (env : Env) (engine : BookingProvider) → Keeps Reached (confirm_from_cloudbeds env engine dto)
  unfolding confirm_from_cloudbeds
  confirm_rule env engine =
      Keeps-bind Reached _ _
        (intent_of_rule now (CloudbedsRequest.confirm_reservation dto) xs dto.reservation_intent_id)
        λ intent. Keeps-or_throw Reached _ _ _ λ conf. Keeps-gets Reached _ _ λ property.
          Keeps-or_throw Reached property _ _ λ property.
            Keeps-gets Reached _ _ λ existing. register_once_rule env intent conf property existing
