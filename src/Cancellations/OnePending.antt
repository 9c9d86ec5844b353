-- ===== src/Cancellations/OnePending.antt =====
-- A booking has one request for cancellation to answer
-- (`requestCancellation` of src/modules/bookings/booking-cancellation-requests.service.ts).
use deptoflex_back.Prelude.{
  ==_iff, Bool, Bool-cases, List, String, ap, arith, create, false, find_many, inl, inr, length,
  refl, sym, ℕ, ◌&&◌, ◌===◌, ◌==◌, ◌∙◌, ◌≡◌, ◌≤◌,
}
use deptoflex_back.Bookings.{find_booking}
use deptoflex_back.Cancellations.Service.{has_pending_request, new_request, request_cancellation}
use deptoflex_back.Prelude.Table.Laws.{All_of_not_exists}
use deptoflex_back.Store.{
  CancellationRequest, Db, Env, Message, RequestStatus, bad_request, conflict, forbidden, not_found,
  request_status_enum, send, ◌>>=◌,
}
use deptoflex_back.Store.Hoare.{
  Triple, Triple-bind, Triple-final, Triple-gets, Triple-modify, Triple-or_throw, Triple-pure,
  Triple-throw_if,
}
use deptoflex_back.Prelude.Table.Answers.{find_many-none, length-find_many-create}

module _ (id : ℕ) where
  abbrev asks : CancellationRequest → Bool
  asks r = r.booking_id == id && r.status === RequestStatus.pending

  -- The requests of a booking that are pending.
  abbrev pub request_count : List CancellationRequest → ℕ
  request_count rs = length (find_many asks rs)

  abbrev HasOneRequest : Db → Type 0
  HasOneRequest s = request_count s.cancellation_requests ≤ 1

  -- The booking of a new request has no other that is pending.
  abbrev IsClear : ℕ → Db → Type 0
  IsClear b s = (has_pending_request b s ≡ false) × HasOneRequest s

  create-HasOneRequest :
      (b : ℕ) (r : CancellationRequest) (s : Db)
      → r.booking_id ≡ b
      → IsClear b s
      → request_count (create r s.cancellation_requests) ≤ 1
  unfolding has_pending_request
  create-HasOneRequest b r s own h = elim (Bool-cases (b == id)) [
    | inl t ↦
        let none_left : request_count s.cancellation_requests ≡ 0 = ap length (
          find_many-none asks s.cancellation_requests
            (All_of_not_exists asks s.cancellation_requests (rw ((==_iff b id).0 t) at h.0))) in
        ground (arith, length-find_many-create asks r s.cancellation_requests, none_left)
    | inr f ↦ ground (arith, length-find_many-create asks r s.cancellation_requests, h.1, own, f)
  ]

  send_keeps : (m : Message) → Triple HasOneRequest HasOneRequest (send m) (λ _. HasOneRequest)
  unfolding ◌>>=◌
  send_keeps m = record { at = λ s k. k }

  -- A booking has at most one pending request for its cancellation, after a request as before it,
  -- whether the request is accepted or refused.
  pub request_cancellation-HasOneRequest :
      (env : Env) (booking_id user_id : ℕ) (reason : String) (s : Db)
      → request_count s.cancellation_requests ≤ 1
      → request_count (request_cancellation env booking_id user_id reason s).1.cancellation_requests
        ≤ 1
  unfolding request_cancellation find_booking
  request_cancellation-HasOneRequest env booking_id user_id reason s h =
      Triple-final HasOneRequest HasOneRequest (request_cancellation env booking_id user_id reason)
        s
        (Triple-bind (λ _. HasOneRequest) _ _ (Triple-gets _ (λ _ k. k))
          λ o.
            Triple-bind (λ _. HasOneRequest) _ _
              (Triple-or_throw o forbidden (λ _ k. k) (λ _ _ _ k. k))
              λ profile.
                Triple-bind (λ _. HasOneRequest) _ _
                  (Triple-bind (λ _. HasOneRequest) _ _ (Triple-gets _ (λ _ k. k))
                    λ b. Triple-or_throw b not_found (λ _ k. k) (λ _ _ _ k. k))
                  λ booking.
                    Triple-bind (λ _. HasOneRequest) _ _
                      (Triple-throw_if _ forbidden (λ _ k. k) (λ _ _ k. k))
                      λ _.
                        Triple-bind (λ _. HasOneRequest) _ _
                          (Triple-throw_if _ bad_request (λ _ k. k) (λ _ _ k. k))
                          λ _.
                            Triple-bind
                              (λ asked s'.
                                (asked ≡ has_pending_request booking_id s') × HasOneRequest s')
                              _ _ (Triple-gets _ (λ _ k. (refl, k)))
                              λ asked.
                                Triple-bind (λ _. IsClear booking_id) _ _
                                  (Triple-throw_if asked conflict (λ _ p. p.1)
                                    (λ e s' p. (sym p.0 ∙ e, p.1)))
                                  λ _.
                                    Triple-bind
                                      (λ r s'.
                                        (r
                                          ≡ new_request env booking_id user_id reason
                                              s'.cancellation_requests)
                                        × IsClear booking_id s')
                                      _ _ (Triple-gets _ (λ _ p. (refl, p)))
                                      λ r.
                                        Triple-bind (λ _. HasOneRequest) _ _
                                          (Triple-modify _ (λ s' p.
                                            create-HasOneRequest booking_id r s'
                                              (ap (λ q. q.booking_id) p.0) p.1))
                                          λ _.
                                            Triple-bind (λ _. HasOneRequest) _ _ (send_keeps _)
                                              λ _. Triple-pure _ (λ _ k. k))
        h
