-- ===== src/Requests/History.antt =====
-- The registry of bookings against its history, over every sequence of requests.
use deptoflex_back.Store.Hoare.{Triple, Triple-final}
use deptoflex_back.Bookings.History.{
  complete-IsLogged, confirm-IsLogged, create_booking-IsLogged, execute_cancellation-IsLogged,
  soft_delete-IsLogged, update-IsLogged,
}
use deptoflex_back.Bookings.Rules.{DbIsLogged, SameLog}
use deptoflex_back.FlexBookings.History.{create_flex_booking-IsLogged}
use deptoflex_back.FlexBookings.UpdateHistory.{soft_delete_flex-IsLogged, update_flex-IsLogged}
use deptoflex_back.History.{IsFresh}
use deptoflex_back.Payments.{
  MercadoPago, create_public_checkout, handle_webhook, sync_public_payment,
}
use deptoflex_back.Payments.History.{
  create_public_checkout_rule, handle_webhook_rule, reconcile_pending_payments-IsLogged,
  sync_public_payment_rule,
}
use deptoflex_back.Ambassadors.{handle_cloudbeds_reservation}
use deptoflex_back.Ambassadors.History.{handle_cloudbeds_reservation_rule}
use deptoflex_back.Prelude.{All, List, [], ◌∷◌}
use deptoflex_back.Requests.{Request, run, serve}
use deptoflex_back.Requests.Frames.{
  approve_commission-SameLog, approve_request_rule, cancel_draft-SameLog,
  create_settlements-SameLog, mark_paid-SameLog, reject_request_rule, request_cancellation_rule,
}
use deptoflex_back.Store.{Action, Db, Env}
use deptoflex_back.Cancellations.{approve_request, reject_request, request_cancellation}
use deptoflex_back.Settlements.{cancel_draft, create_settlements, mark_paid}
use deptoflex_back.Workflow.{approve_commission}
use deptoflex_back.Cloudbeds.History.{serve_cloudbeds-IsLogged}
use deptoflex_back.Leads.{add_note, create_lead, soft_delete_lead, update_lead}
use deptoflex_back.Leads.History.{
  add_note-SameLog, convert_to_booking-IsLogged, create_lead-SameLog, soft_delete_lead-SameLog,
  update_lead-SameLog,
}

module _ (env : Env) (mp : MercadoPago) (s : Db) (l : DbIsLogged s) where
  by_rule :
      {A : Type 0} (m : Action A)
      → Triple DbIsLogged DbIsLogged m (λ _. DbIsLogged)
      → DbIsLogged (m s).1
  by_rule m t = Triple-final DbIsLogged DbIsLogged m s t l

  by_frame : {A : Type 0} (m : Action A) → SameLog s (m s) → DbIsLogged (m s).1
  by_frame m e = rw (e.0, e.1) l

  serve-IsLogged : IsFresh env.fresh → (r : Request) → DbIsLogged (serve env mp r s)
  unfolding serve
  serve-IsLogged f (Request.create_booking dto by) = create_booking-IsLogged env dto by s f l
  serve-IsLogged f (Request.confirm_booking id reason by) = confirm-IsLogged env id reason by s l
  serve-IsLogged f (Request.cancel_booking id reason by) =
      execute_cancellation-IsLogged id reason by s l
  serve-IsLogged f (Request.complete_booking id reason by) = complete-IsLogged id reason by s l
  serve-IsLogged f (Request.update_booking id dto) = update-IsLogged id dto s l
  serve-IsLogged f (Request.delete_booking id) = soft_delete-IsLogged env id s l
  serve-IsLogged f (Request.create_flex dto user) = create_flex_booking-IsLogged env dto user s f l
  serve-IsLogged f (Request.update_flex id dto by) = update_flex-IsLogged env id dto by s l
  serve-IsLogged f (Request.delete_flex id by) = soft_delete_flex-IsLogged env id by s l
  serve-IsLogged f (Request.ask_cancellation id user reason) =
      by_rule (request_cancellation env id user reason)
        (request_cancellation_rule env id user reason)
  serve-IsLogged f (Request.approve_cancellation id admin) =
      by_rule (approve_request env id admin) (approve_request_rule env id admin)
  serve-IsLogged f (Request.reject_cancellation id admin notes) =
      by_rule (reject_request env id admin notes) (reject_request_rule env id admin notes)
  serve-IsLogged f (Request.checkout token) =
      by_rule (create_public_checkout env mp token) (create_public_checkout_rule env mp token)
  serve-IsLogged f (Request.webhook event) =
      by_rule (handle_webhook env mp event) (handle_webhook_rule env mp event)
  serve-IsLogged f (Request.sync_payment token payment order) =
      by_rule (sync_public_payment env mp token payment order)
        (sync_public_payment_rule env mp token payment order)
  serve-IsLogged f Request.reconcile = reconcile_pending_payments-IsLogged env mp s l
  serve-IsLogged f (Request.settle dto) =
      by_frame (create_settlements env dto) (create_settlements-SameLog env dto s)
  serve-IsLogged f (Request.pay id dto by) =
      by_frame (mark_paid env id dto by) (mark_paid-SameLog env id dto by s)
  serve-IsLogged f (Request.cancel_settlement id) =
      by_frame (cancel_draft id) (cancel_draft-SameLog id s)
  serve-IsLogged f (Request.approve_one_commission id) =
      by_frame (approve_commission env id) (approve_commission-SameLog env id s)
  serve-IsLogged f (Request.open_lead dto profile) =
      by_frame (create_lead env dto profile) (create_lead-SameLog env dto profile s)
  serve-IsLogged f (Request.edit_lead id dto) =
      by_frame (update_lead id dto) (update_lead-SameLog id dto s)
  serve-IsLogged f (Request.note_lead id message by) =
      by_frame (add_note id message by) (add_note-SameLog id message by s)
  serve-IsLogged f (Request.convert_lead id dto by) =
      convert_to_booking-IsLogged env id dto by s f l
  serve-IsLogged f (Request.delete_lead id) =
      by_frame (soft_delete_lead env id) (soft_delete_lead-SameLog env id s)
  serve-IsLogged f (Request.cloudbeds cfg engine r) =
      serve_cloudbeds-IsLogged env cfg engine r s f l
  serve-IsLogged f (Request.notice hash dto) =
      by_rule (handle_cloudbeds_reservation env hash dto)
        (handle_cloudbeds_reservation_rule env f dto hash)

-- After any sequence of requests, the status of every booking of the registry is the one that its
-- status history ends with, every entry of the history starts from the status that the entries
-- before it give, and every entry is of a booking in the registry; given that this holds at the
-- start and that no generated id is in use.
pub run-IsLogged :
    (rs : List (Env × MercadoPago × Request)) (s : Db)
    → All (λ r. IsFresh r.0.fresh) rs
    → DbIsLogged s
    → DbIsLogged (run rs s)
unfolding run
run-IsLogged [] s f l = l
run-IsLogged ((env, mp, r) ∷ rs) s f l =
    run-IsLogged rs (serve env mp r s) f.1 (serve-IsLogged env mp s l f.0 r)
