-- ===== src/Cloudbeds/Lives.antt =====
-- The requests of src/modules/cloudbeds against the life of an intent.
use deptoflex_back.Cloudbeds.Confirm.{
  expire_pending_intents, mark_redirected, redirect, set_intent_status,
}
use deptoflex_back.Cloudbeds.Life.{
  Grown, IntentLife, IntentReach, confirm_rule, create_intent_rule, ends, expires,
  intent_status_lem, lives, redirects, search_rule, stays, step_rows,
}
use deptoflex_back.Cloudbeds.Provider.{BookingProvider, CloudbedsConfig}
use deptoflex_back.Cloudbeds.Requests.{CloudbedsRequest, run_cloudbeds, serve_cloudbeds}
use deptoflex_back.Prelude.{
  ==_iff, Extends, Extends-self, Extends-trans, List, [], arith, ltb, ltb→lt, map, ◌&&◌, ◌===◌,
  ◌==◌, ◌∷◌,
}
use deptoflex_back.Store.{Db, Env, IntentStatus, ReservationIntent, intent_status_enum, ◌>>=◌}
use deptoflex_back.Store.Hoare.{Triple-final}

serve_cloudbeds-Grown :
    (env : Env) (cfg : CloudbedsConfig) (engine : BookingProvider) (r : CloudbedsRequest)
    (xs : List ReservationIntent) (s : Db)
    → Grown env.now r xs s
    → Grown env.now r xs (serve_cloudbeds env cfg engine r s)
unfolding serve_cloudbeds mark_redirected expire_pending_intents ◌>>=◌
serve_cloudbeds-Grown env cfg engine (CloudbedsRequest.search dto) xs s g =
    Triple-final _ (Grown env.now _ xs) _ s (search_rule env.now _ xs env cfg engine dto) g
serve_cloudbeds-Grown env cfg engine (CloudbedsRequest.open_intent dto context) xs s g =
    Triple-final _ (Grown env.now _ xs) _ s
      (create_intent_rule env.now _ xs env cfg engine dto context) g
serve_cloudbeds-Grown env cfg engine (CloudbedsRequest.confirm_reservation dto) xs s g =
    Triple-final _ (Grown env.now _ xs) _ s (confirm_rule env.now dto xs env engine) g
serve_cloudbeds-Grown env cfg engine (CloudbedsRequest.redirected id) xs s g =
    step_rows env.now _ xs (λ i. i.id == id && i.status === IntentStatus.pending) (redirect env)
      (λ i t.
        redirects env.now id i ((==_iff i.id id).0 (ground (arith, t)))
          (intent_status_lem i.status IntentStatus.pending (ground (arith, t))))
      s.reservation_intents g
serve_cloudbeds-Grown env cfg engine CloudbedsRequest.expire xs s g =
    step_rows env.now _ xs (λ i. i.status === IntentStatus.pending && ltb i.expires_at env.now)
      (set_intent_status IntentStatus.expired)
      (λ i t.
        expires env.now i (intent_status_lem i.status IntentStatus.pending (ground (arith, t)))
          (ltb→lt i.expires_at env.now (ground (arith, t))))
      s.reservation_intents g

-- Over any sequence of searches, new intents, redirections, expirations and confirmations, no intent
-- is lost, and each lives through the requests one after the other: a redirection of a PENDING intent,
-- by its id, notes the time of the request; an expiration ends a PENDING intent whose time has passed
-- when it is served; a confirmation may confirm an intent of any status; no other request and nothing
-- else changes its data.
pub run_cloudbeds-refines :
    (rs : List (Env × CloudbedsConfig × BookingProvider × CloudbedsRequest)) (s : Db)
    → Extends
        (IntentLife (map (λ r. (r.0.now, r.3)) rs))
        s.reservation_intents
        (run_cloudbeds rs s).reservation_intents
unfolding run_cloudbeds
run_cloudbeds-refines [] s = Extends-self (IntentLife []) ends s.reservation_intents
run_cloudbeds-refines ((env, cfg, engine, r) ∷ rs) s =
    Extends-trans _ _ _ (lives env.now r (map (λ r. (r.0.now, r.3)) rs)) s.reservation_intents _ _
      (serve_cloudbeds-Grown env cfg engine r s.reservation_intents s
        (Extends-self (IntentReach env.now r) (stays env.now r) s.reservation_intents))
      (run_cloudbeds-refines rs (serve_cloudbeds env cfg engine r s))
