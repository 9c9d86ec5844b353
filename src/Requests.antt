-- ===== src/Requests.antt =====
-- The requests that write the registry of bookings or its history, of every service that does, with
-- those that change leads, intents, payments, cancellation requests and settlements, and what the
-- server does with a sequence of them: each leaves the database that the next one finds.

mod Frames
pub mod History
use deptoflex_back.Bookings
use deptoflex_back.FlexBookings
use deptoflex_back.Leads
use deptoflex_back.Leads.{
  ConvertToBooking, CreateLead, UpdateLead, add_note, convert_to_booking, create_lead,
  soft_delete_lead, update_lead,
}
use deptoflex_back.Cloudbeds.{BookingProvider, CloudbedsConfig, CloudbedsRequest, serve_cloudbeds}
use deptoflex_back.Ambassadors.{ReservationNotice, handle_cloudbeds_reservation}
use deptoflex_back.Access.{CurrentUser}
use deptoflex_back.Bookings.{
  CreateBooking, UpdateBooking, complete, confirm, execute_cancellation, soft_delete,
}
use deptoflex_back.Cancellations.{approve_request, reject_request, request_cancellation}
use deptoflex_back.FlexBookings.{
  CreateFlexBooking, UpdateFlexBooking, create_flex_booking, soft_delete_flex,
}
use deptoflex_back.Payments.{
  MercadoPago, WebhookEvent, create_public_checkout, handle_webhook, reconcile_pending_payments,
  sync_public_payment,
}
use deptoflex_back.Prelude.{List, Option, String, [], ℕ, ◌∷◌}
use deptoflex_back.Settlements.{
  CreateSettlement, MarkSettlementPaid, cancel_draft, create_settlements, mark_paid,
}
use deptoflex_back.Store.{Actor, Db, Env}
use deptoflex_back.Workflow.{approve_commission}

-- A request: a method of a service and its arguments.
pub data Request : Type 0 where
  create_booking : CreateBooking → Actor → Request
  confirm_booking : ℕ → Option String → Actor → Request
  cancel_booking : ℕ → String → Actor → Request
  complete_booking : ℕ → Option String → Actor → Request
  update_booking : ℕ → UpdateBooking → Request
  delete_booking : ℕ → Request
  create_flex : CreateFlexBooking → Option CurrentUser → Request
  update_flex : ℕ → UpdateFlexBooking → Option Actor → Request
  delete_flex : ℕ → Option Actor → Request
  ask_cancellation : ℕ → ℕ → String → Request
  approve_cancellation : ℕ → ℕ → Request
  reject_cancellation : ℕ → ℕ → Option String → Request
  checkout : ℕ → Request
  webhook : Option WebhookEvent → Request
  sync_payment : ℕ → Option ℕ → Option ℕ → Request
  reconcile : Request
  settle : CreateSettlement → Request
  pay : ℕ → MarkSettlementPaid → ℕ → Request
  cancel_settlement : ℕ → Request
  approve_one_commission : ℕ → Request
  open_lead : CreateLead → Option ℕ → Request
  edit_lead : ℕ → UpdateLead → Request
  note_lead : ℕ → String → ℕ → Request
  convert_lead : ℕ → ConvertToBooking → Actor → Request
  delete_lead : ℕ → Request
  cloudbeds : CloudbedsConfig → BookingProvider → CloudbedsRequest → Request
  notice : (String → ℕ) → ReservationNotice → Request

-- What the request leaves, whether its method returns or throws.
unfoldable pub serve : Env → MercadoPago → Request → Db → Db
serve env mp (Request.create_booking dto by) s = (Bookings.create_booking env dto by s).1
serve env mp (Request.confirm_booking id reason by) s = (confirm env id reason by s).1
serve env mp (Request.cancel_booking id reason by) s = (execute_cancellation id reason by s).1
serve env mp (Request.complete_booking id reason by) s = (complete id reason by s).1
serve env mp (Request.update_booking id dto) s = (Bookings.update id dto s).1
serve env mp (Request.delete_booking id) s = (soft_delete env id s).1
serve env mp (Request.create_flex dto user) s = (create_flex_booking env dto user s).1
serve env mp (Request.update_flex id dto by) s = (FlexBookings.update_flex env id dto by s).1
serve env mp (Request.delete_flex id by) s = (soft_delete_flex env id by s).1
serve env mp (Request.ask_cancellation id user reason) s =
    (request_cancellation env id user reason s).1
serve env mp (Request.approve_cancellation id admin) s = (approve_request env id admin s).1
serve env mp (Request.reject_cancellation id admin notes) s =
    (reject_request env id admin notes s).1
serve env mp (Request.checkout token) s = (create_public_checkout env mp token s).1
serve env mp (Request.webhook event) s = (handle_webhook env mp event s).1
serve env mp (Request.sync_payment token payment order) s =
    (sync_public_payment env mp token payment order s).1
serve env mp Request.reconcile s = (reconcile_pending_payments env mp s).1
serve env mp (Request.settle dto) s = (create_settlements env dto s).1
serve env mp (Request.pay id dto by) s = (mark_paid env id dto by s).1
serve env mp (Request.cancel_settlement id) s = (cancel_draft id s).1
serve env mp (Request.approve_one_commission id) s = (approve_commission env id s).1
serve env mp (Request.open_lead dto profile) s = (create_lead env dto profile s).1
serve env mp (Request.edit_lead id dto) s = (update_lead id dto s).1
serve env mp (Request.note_lead id message by) s = (add_note id message by s).1
serve env mp (Request.convert_lead id dto by) s = (convert_to_booking env id dto by s).1
serve env mp (Request.delete_lead id) s = (soft_delete_lead env id s).1
serve env mp (Request.cloudbeds cfg engine r) s = serve_cloudbeds env cfg engine r s
serve env mp (Request.notice hash dto) s = (handle_cloudbeds_reservation env hash dto s).1

-- A sequence of requests, each at its own time and with its own answers from outside.
unfoldable pub run : List (Env × MercadoPago × Request) → Db → Db
unfolding serve
run [] s = s
run ((env, mp, r) ∷ rs) s = run rs (serve env mp r s)
