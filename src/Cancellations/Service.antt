-- ===== src/Cancellations/Service.antt =====
-- The methods of `BookingCancellationRequestsService` that write.
use deptoflex_back.Prelude.{
  Bool, List, Option, String, create, exists, find_first, if◌then◌else◌, is_some, map, none, not,
  some, update_many, ℕ, ◌&&◌, ◌===◌, ◌==?◌, ◌==◌,
}
use deptoflex_back.Bookings.{execute_cancellation, find_booking}
use deptoflex_back.Store.{
  Action, Actor, BookingStatus, CancellationRequest, Db, Env, Message, RequestStatus, bad_request,
  booking_status_enum, conflict, database, err, forbidden, gets, modify, not_found, ok, or_throw,
  pure, request_status_enum, send, throw_if, ◌>>=◌, ◌>>◌,
}

unfoldable pub new_request : Env → ℕ → ℕ → String → List CancellationRequest → CancellationRequest
new_request env booking_id user_id reason rows = record {
  id = env.fresh (map (λ r. r.id) rows);
  booking_id = booking_id;
  requested_by = user_id;
  reason = reason;
  status = RequestStatus.pending;
  reviewed_by = none;
  reviewed_at = none;
  admin_notes = none;
}

unfoldable pub has_pending_request : ℕ → Db → Bool
has_pending_request booking_id s =
    exists (λ r. r.booking_id == booking_id && r.status === RequestStatus.pending)
      s.cancellation_requests

-- `requestCancellation`
unfoldable pub request_cancellation : Env → ℕ → ℕ → String → Action ℕ
unfolding new_request has_pending_request
request_cancellation env booking_id user_id reason = do
  profile ← gets (λ s. find_first (λ p. p.user_id == user_id) s.profiles)
  profile ← or_throw profile forbidden
  booking ← find_booking booking_id
  throw_if (not (booking.professional_profile_id ==? profile.id)) forbidden
  throw_if
      (not (booking.status === BookingStatus.pending)
        && not (booking.status === BookingStatus.confirmed))
      bad_request
  throw_if (← gets (has_pending_request booking_id)) conflict
  request ← gets (λ s. new_request env booking_id user_id reason s.cancellation_requests)
  modify λ s. record s { cancellation_requests = create request s.cancellation_requests }
  send (Message.cancellation_requested booking_id request.id)
  pure request.id

-- `findPendingRequest`, with the booking that it joins
unfoldable pub find_pending_request : ℕ → Action CancellationRequest
find_pending_request request_id = do
  request ← gets (λ s. find_first (λ r. r.id == request_id) s.cancellation_requests)
  request ← or_throw request not_found
  throw_if (not (request.status === RequestStatus.pending)) bad_request
  booking ← gets (λ s. find_first (λ b. b.id == request.booking_id) s.bookings)
  booking ← or_throw booking not_found
  throw_if (is_some booking.deleted_at) not_found
  throw_if (booking.status === BookingStatus.cancelled) bad_request
  pure request

unfoldable pub update_request : ℕ → (CancellationRequest → CancellationRequest) → Action (Unit {0})
update_request id f s =
    if exists (λ r. r.id == id) s.cancellation_requests
    then (
      ok tt,
      record s { cancellation_requests = update_many (λ r. r.id == id) f s.cancellation_requests },
    )
    else (err database, s)

-- `approve`
unfoldable pub approve_request : Env → ℕ → ℕ → Action (Unit {0})
unfolding find_pending_request update_request
approve_request env request_id admin = do
  request ← find_pending_request request_id
  execute_cancellation request.booking_id request.reason (Actor.user admin)
  update_request request_id λ r. record r {
    status = RequestStatus.approved;
    reviewed_by = some admin;
    reviewed_at = some env.now;
  }

-- `reject`
unfoldable pub reject_request : Env → ℕ → ℕ → Option String → Action (Unit {0})
unfolding find_pending_request update_request
reject_request env request_id admin admin_notes = do
  request ← find_pending_request request_id
  update_request request_id λ r. record r {
    status = RequestStatus.rejected;
    reviewed_by = some admin;
    reviewed_at = some env.now;
    admin_notes = admin_notes;
  }
  send (Message.cancellation_rejected request_id)
