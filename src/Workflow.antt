-- ===== src/Workflow.antt =====
-- src/modules/commissions/commission-workflow.service.ts: how a commission is approved and
-- cancelled.
pub mod Approval
use deptoflex_back.Prelude.{
  Bool, find_first, is_none, is_some, not, some, ℕ, ◌&&◌, ◌===◌, ◌==◌, ◌||◌,
}
use deptoflex_back.Store.{
  Action, Commission, CommissionStatus, Env, bad_request, commission_status_enum, gets, not_found,
  or_throw, set_commission_status, throw_if, update_commissions, when, ◌>>=◌, ◌>>◌,
}

-- The `data` of an approval.
unfoldable pub approve : ℕ → Commission → Commission
approve now c = record c { status = CommissionStatus.approved; approved_at = some now }

-- The `where` of the two approvals on confirmation.
unfoldable pub is_open_pending : ℕ → Commission → Bool
is_open_pending booking_id c =
    c.booking_id == booking_id && c.status === CommissionStatus.pending && is_none c.settlement_id

-- `approveOnFlexBookingConfirmed`
unfoldable pub approve_on_flex_booking_confirmed : Env → ℕ → Action (Unit {0})
unfolding approve is_open_pending
approve_on_flex_booking_confirmed env booking_id =
    update_commissions (is_open_pending booking_id) (approve env.now)

-- `approveTrustedTemporalOnConfirm`
unfoldable pub approve_trusted_temporal_on_confirm : Env → ℕ → Action (Unit {0})
unfolding approve is_open_pending
approve_trusted_temporal_on_confirm env booking_id =
    update_commissions (is_open_pending booking_id) (approve env.now)

-- `approveCommission`
unfoldable pub approve_commission : Env → ℕ → Action (Unit {0})
unfolding approve
approve_commission env commission_id = do
  commission ← gets (λ s. find_first (λ c. c.id == commission_id) s.commissions)
  commission ← or_throw commission not_found
  throw_if (commission.status === CommissionStatus.paid) bad_request
  throw_if (commission.status === CommissionStatus.cancelled) bad_request
  throw_if (is_some commission.settlement_id) bad_request
  when (not (commission.status === CommissionStatus.approved)) do
    throw_if
        (not (commission.status === CommissionStatus.pending)
          && not (commission.status === CommissionStatus.pending_validation))
        bad_request
    update_commissions (λ c. c.id == commission_id) (approve env.now)

-- `cancelForBooking`
unfoldable pub cancel_for_booking : ℕ → Action (Unit {0})
cancel_for_booking booking_id =
    update_commissions
      (λ c.
        c.booking_id == booking_id
        && not (c.status === CommissionStatus.paid || c.status === CommissionStatus.cancelled))
      (set_commission_status CommissionStatus.cancelled)
