-- ===== src/Requests/Frames.antt =====
-- The cancellation requests and the settlements
-- (src/modules/bookings/booking-cancellation-requests.service.ts and
-- src/modules/commissions/commission-settlements.service.ts) beside the registry's history.
use deptoflex_back.Store.Hoare.{Triple, Triple-bind}
use deptoflex_back.Bookings.{find_booking}
use deptoflex_back.Bookings.History.{execute_cancellation_rule}
use deptoflex_back.Bookings.Rules.{DbIsLogged, SameLog, frame_rule, send_rule}
use deptoflex_back.Cancellations.{
  approve_request, find_pending_request, reject_request, request_cancellation, update_request,
}
use deptoflex_back.History.{IsLogged}
use deptoflex_back.Prelude.{Option, String, [], arith, find_many, refl, ℕ, ◌∷◌, ◌≡◌}
use deptoflex_back.Settlements.{
  CreateSettlement, Groups, MarkSettlementPaid, cancel_draft, create_settlements, group_by_profile,
  is_eligible, mark_paid, settle_group, settle_groups, wanted,
}
use deptoflex_back.Store.{CancellationRequest, Db, Env, update_commissions, ◌>>=◌}
use deptoflex_back.Workflow.{approve_commission}

request_cancellation-SameLog :
    (env : Env) (id user : ℕ) (reason : String) (s : Db)
    → SameLog s (request_cancellation env id user reason s)
unfolding request_cancellation find_booking ◌>>=◌
request_cancellation-SameLog env id user reason s = (ground arith, ground arith)

find_pending_request-SameLog : (id : ℕ) (s : Db) → SameLog s (find_pending_request id s)
unfolding find_pending_request ◌>>=◌
find_pending_request-SameLog id s = (ground arith, ground arith)

update_request-SameLog :
    (id : ℕ) (f : CancellationRequest → CancellationRequest) (s : Db)
    → SameLog s (update_request id f s)
unfolding update_request
update_request-SameLog id f s = (ground arith, ground arith)

pub request_cancellation_rule :
    (env : Env) (id user : ℕ) (reason : String)
    → Triple DbIsLogged DbIsLogged (request_cancellation env id user reason) (λ _. DbIsLogged)
request_cancellation_rule env id user reason =
    frame_rule _ IsLogged _ (λ _ h. h) (request_cancellation-SameLog env id user reason)

pub approve_request_rule :
    (env : Env) (id admin : ℕ)
    → Triple DbIsLogged DbIsLogged (approve_request env id admin) (λ _. DbIsLogged)
unfolding approve_request
approve_request_rule env id admin =
    Triple-bind (λ _. DbIsLogged) _ _
      (frame_rule _ IsLogged _ (λ _ h. h) (find_pending_request-SameLog id))
      λ r.
        Triple-bind (λ _. DbIsLogged) _ _ (execute_cancellation_rule r.booking_id r.reason _)
          λ _. frame_rule _ IsLogged _ (λ _ h. h) (update_request-SameLog id _)

pub reject_request_rule :
    (env : Env) (id admin : ℕ) (notes : Option String)
    → Triple DbIsLogged DbIsLogged (reject_request env id admin notes) (λ _. DbIsLogged)
unfolding reject_request
reject_request_rule env id admin notes =
    Triple-bind (λ _. DbIsLogged) _ _
      (frame_rule _ IsLogged _ (λ _ h. h) (find_pending_request-SameLog id))
      λ r.
        Triple-bind (λ _. DbIsLogged) _ _
          (frame_rule _ IsLogged _ (λ _ h. h) (update_request-SameLog id _)) λ _. send_rule _

settle_groups-same_log :
    (env : Env) (notes : Option String) (groups : Groups) (s : Db)
    → ((settle_groups env notes groups s).bookings ≡ s.bookings)
      × ((settle_groups env notes groups s).status_history ≡ s.status_history)
unfolding settle_groups settle_group
settle_groups-same_log env notes [] s = (refl, refl)
settle_groups-same_log env notes ((p, cs) ∷ groups) s =
    settle_groups-same_log env notes groups (settle_group env notes p cs s)

pub create_settlements-SameLog :
    (env : Env) (dto : CreateSettlement) (s : Db) → SameLog s (create_settlements env dto s)
unfolding create_settlements ◌>>=◌
create_settlements-SameLog env dto s =
    let cs = wanted dto.professional_profile_ids (find_many (is_eligible s) s.commissions) in
    let same = settle_groups-same_log env dto.notes (group_by_profile cs []) s in
    (ground (arith, same.0), ground (arith, same.1))

pub mark_paid-SameLog :
    (env : Env) (id : ℕ) (dto : MarkSettlementPaid) (by : ℕ) (s : Db)
    → SameLog s (mark_paid env id dto by s)
unfolding mark_paid update_commissions ◌>>=◌
mark_paid-SameLog env id dto by s = (ground arith, ground arith)

pub cancel_draft-SameLog : (id : ℕ) (s : Db) → SameLog s (cancel_draft id s)
unfolding cancel_draft update_commissions ◌>>=◌
cancel_draft-SameLog id s = (ground arith, ground arith)

pub approve_commission-SameLog :
    (env : Env) (id : ℕ) (s : Db) → SameLog s (approve_commission env id s)
unfolding approve_commission update_commissions ◌>>=◌
approve_commission-SameLog env id s = (ground arith, ground arith)
