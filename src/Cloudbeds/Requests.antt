-- ===== src/Cloudbeds/Requests.antt =====
-- The requests of src/modules/cloudbeds, and what the server does with a sequence of them.
use deptoflex_back.Cloudbeds.Confirm.{
  confirm_from_cloudbeds, expire_pending_intents, mark_redirected,
}
use deptoflex_back.Cloudbeds.Intents.{
  ConfirmReservation, CreateReservationIntent, IntentContext, create_intent,
}
use deptoflex_back.Cloudbeds.Provider.{BookingProvider, CloudbedsConfig}
use deptoflex_back.Cloudbeds.Search.{SearchAvailability, search_availability}
use deptoflex_back.Prelude.{List, [], ℕ, ◌∷◌}
use deptoflex_back.Store.{Db, Env}

pub data CloudbedsRequest : Type 0 where
  search : SearchAvailability → CloudbedsRequest
  open_intent : CreateReservationIntent → IntentContext → CloudbedsRequest
  confirm_reservation : ConfirmReservation → CloudbedsRequest
  redirected : ℕ → CloudbedsRequest
  expire : CloudbedsRequest

unfoldable pub serve_cloudbeds :
    Env → CloudbedsConfig → BookingProvider → CloudbedsRequest → Db → Db
serve_cloudbeds env cfg engine (CloudbedsRequest.search dto) s =
    (search_availability env cfg engine dto s).1
serve_cloudbeds env cfg engine (CloudbedsRequest.open_intent dto context) s =
    (create_intent env cfg engine dto context s).1
serve_cloudbeds env cfg engine (CloudbedsRequest.confirm_reservation dto) s =
    (confirm_from_cloudbeds env engine dto s).1
serve_cloudbeds env cfg engine (CloudbedsRequest.redirected id) s = (mark_redirected env id s).1
serve_cloudbeds env cfg engine CloudbedsRequest.expire s = (expire_pending_intents env s).1

unfoldable pub run_cloudbeds :
    List (Env × CloudbedsConfig × BookingProvider × CloudbedsRequest) → Db → Db
unfolding serve_cloudbeds
run_cloudbeds [] s = s
run_cloudbeds ((env, cfg, engine, r) ∷ rs) s = run_cloudbeds rs (serve_cloudbeds env cfg engine r s)
