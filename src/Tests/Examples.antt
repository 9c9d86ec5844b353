-- ===== src/Tests/Examples.antt =====
-- The theorems at the office and its requests.
use deptoflex_back.Prelude.{
  All, Forall₂, List, [], arith, exists, false, find_first, find_many, includes, none, refl, some,
  sum_of, true, ℕ, ◌+◌, ◌<◌, ◌==?◌, ◌∷◌, ◌≡◌, ◌≤◌,
}
use deptoflex_back.Access.{assert_can_operate_as_ambassador, revoke_agency_access}
use deptoflex_back.Access.Roles.{revoke_agency_access-forbids}
use deptoflex_back.Bookings.{execute_cancellation, live_booking}
use deptoflex_back.Bookings.Cancelled.{ReleasesFound, execute_cancellation-releases}
use deptoflex_back.Bookings.Rules.{DbIsLogged}
use deptoflex_back.FlexBookings.{create_flex_booking}
use deptoflex_back.FlexBookings.Availability.{IsFree, create_flex_booking-IsFree}
use deptoflex_back.History.{IsChained, IsFresh, replay}
use deptoflex_back.Payments.{create_public_checkout, is_pending_payment, process_payment}
use deptoflex_back.Payments.OpenPayment.{create_public_checkout-HasOnePending, pending_count}
use deptoflex_back.Pricing.{create_plan, quote, resolve_plan}
use deptoflex_back.Pricing.Choice.{IsChoice, resolve_plan-IsChoice}
use deptoflex_back.Rates.{
  RateSource, recalculate_all_pending, resolve_flex_rate_with_source, upsert_ambassador_override,
}
use deptoflex_back.Rates.Cascade.{upsert_ambassador_override-resolves}
use deptoflex_back.Rates.Pending.{Reprices, recalculate_all_pending-Reprices}
use deptoflex_back.Requests.{run}
use deptoflex_back.Requests.History.{run-IsLogged}
use deptoflex_back.Settlements.{
  booking_is_eligible, cancel_draft, create_settlements, is_eligible, mark_paid, settlement_preview,
  wanted,
}
use deptoflex_back.Settlements.Closed.{cancel_draft-closes, mark_paid-closes}
use deptoflex_back.Settlements.Settled.{create_settlements-once}
use deptoflex_back.Settlements.Totals.{
  create_settlements-total, settled_total, settlement_preview-grand_total,
}
use deptoflex_back.Store.{Actor, CommissionStatus, Db, bad_request, err, forbidden}
use deptoflex_back.Store.Hoare.{Post}
use deptoflex_back.Tests.{
  env, half_year, mercado_pago, mp_payment, next_id, next_stay, office, pay_today, plan, requests,
  settle_all, staff,
}
use deptoflex_back.Cancellations.{request_cancellation}
use deptoflex_back.Cancellations.OnePending.{request_cancellation-HasOneRequest, request_count}
use deptoflex_back.Payments.Notified.{process_payment-HasOnePending}
use deptoflex_back.Pricing.Amounts.{IsQuoted, quote-IsQuoted}
use deptoflex_back.Workflow.{approve_commission}
use deptoflex_back.Workflow.Approval.{Decides, approve_commission-Decides}
use deptoflex_back.Pricing.Synchronized.{IsSynchronized, create_plan-IsSynchronized}

bounded : (ids : List ℕ) (n : ℕ) → sum_of (λ (i : ℕ). i) ids < n → includes ids n ≡ false
bounded [] n h = refl
bounded (i ∷ ids) n h = ground (arith, bounded ids n (omega arith))

next_id-IsFresh : IsFresh next_id
next_id-IsFresh = record { unused = λ ids. bounded ids (next_id ids) (omega arith) }

office-IsLogged : DbIsLogged office
unfolding replay IsChained exists
office-IsLogged = record {
  current = (refl, (refl, (refl, tt)));
  chained = (refl, (refl, (refl, (refl, (refl, tt)))));
  known = (refl, (refl, (refl, (refl, (refl, tt)))));
}

run-IsLogged_example : DbIsLogged (run requests office)
run-IsLogged_example =
    run-IsLogged requests office (next_id-IsFresh, (next_id-IsFresh, (next_id-IsFresh, tt)))
      office-IsLogged

create_flex_booking-IsFree_example :
    IsFree (create_flex_booking env next_stay (some staff) office).1.flex_bookings
unfolding exists
create_flex_booking-IsFree_example =
    create_flex_booking-IsFree next_stay env (some staff) office (refl, tt)

create_settlements-total_example :
    settled_total (create_settlements env settle_all office).1 ≡ 18000
unfolding wanted is_eligible booking_is_eligible exists find_many
create_settlements-total_example = create_settlements-total env settle_all office

settlement_preview-grand_total_example :
    settled_total (create_settlements env settle_all office).1
    ≡ settled_total office + (settlement_preview office).grand_total
settlement_preview-grand_total_example = settlement_preview-grand_total env none office

create_settlements-once_example :
    create_settlements env settle_all (create_settlements env settle_all office).1
    ≡ (err bad_request, (create_settlements env settle_all office).1)
create_settlements-once_example = create_settlements-once env env settle_all office

execute_cancellation-releases_example :
    Post
      (λ s. s ≡ office)
      (λ _. ReleasesFound 2 (find_first (live_booking 2) office.bookings))
      (execute_cancellation 2 "Change of plans" (Actor.user 2) office)
execute_cancellation-releases_example =
    execute_cancellation-releases 2 "Change of plans" (Actor.user 2) office

create_public_checkout-HasOnePending_example :
    pending_count 1 (create_public_checkout env mercado_pago 5 office).1.payments ≤ 1
unfolding find_many is_pending_payment
create_public_checkout-HasOnePending_example =
    create_public_checkout-HasOnePending 1 env mercado_pago 5 office (omega arith)

mark_paid-closes_example :
    Post
      (λ s. s ≡ office)
      (λ _ s.
        All (λ c. (c.settlement_id ==? 1) ≡ true → c.status ≡ CommissionStatus.paid) s.commissions
        × (mark_paid env 1 pay_today 2 s ≡ (err bad_request, s))
        × (cancel_draft 1 s ≡ (err bad_request, s)))
      (mark_paid env 1 pay_today 2 office)
mark_paid-closes_example = mark_paid-closes 1 env env pay_today pay_today 2 2 office

cancel_draft-closes_example :
    Post
      (λ s. s ≡ office)
      (λ _ s.
        (exists (λ c. c.settlement_id ==? 1) s.commissions ≡ false)
        × (mark_paid env 1 pay_today 2 s ≡ (err bad_request, s))
        × (cancel_draft 1 s ≡ (err bad_request, s)))
      (cancel_draft 1 office)
cancel_draft-closes_example = cancel_draft-closes 1 env pay_today 2 office

upsert_ambassador_override-resolves_example :
    Post
      (λ s. s ≡ office)
      (λ _ s.
        resolve_flex_rate_with_source s 1 (some 1)
        ≡ record { rate = 1500; source = RateSource.override })
      (upsert_ambassador_override env 1 1 1500 office)
upsert_ambassador_override-resolves_example =
    upsert_ambassador_override-resolves env 1 1 1500 office

recalculate_all_pending-Reprices_example :
    Forall₂ Reprices office.commissions (recalculate_all_pending env office).1.commissions
recalculate_all_pending-Reprices_example = recalculate_all_pending-Reprices env office

resolve_plan-IsChoice_example :
    IsChoice 4
      (plan 1 1 (some 2) ∷ plan 2 1 none ∷ plan 3 3 none ∷ [])
      (resolve_plan (plan 1 1 (some 2) ∷ plan 2 1 none ∷ plan 3 3 none ∷ []) 4 none)
resolve_plan-IsChoice_example =
    resolve_plan-IsChoice 4 (plan 1 1 (some 2) ∷ plan 2 1 none ∷ plan 3 3 none ∷ [])

revoke_agency_access-forbids_example :
    assert_can_operate_as_ambassador 10 (revoke_agency_access 7 20 office)
    ≡ (err forbidden, revoke_agency_access 7 20 office)
unfolding exists
revoke_agency_access-forbids_example = revoke_agency_access-forbids 10 7 20 office refl

process_payment-HasOnePending_example :
    pending_count 1 (process_payment env mp_payment office).1.payments ≤ 1
unfolding find_many is_pending_payment
process_payment-HasOnePending_example =
    process_payment-HasOnePending 1 env mp_payment office (omega arith)

request_cancellation-HasOneRequest_example :
    request_count 2 (request_cancellation env 2 10 "Change of plans" office).1.cancellation_requests
    ≤ 1
unfolding find_many
request_cancellation-HasOneRequest_example =
    request_cancellation-HasOneRequest 2 env 2 10 "Change of plans" office (omega arith)

-- The loft has a plan of one to two months, and one from three months on.
abbrev rented : Db
rented = record office { pricing_plans = plan 1 1 (some 2) ∷ plan 2 3 none ∷ [] }

quote-IsQuoted_example :
    Post
      (λ s. s ≡ rented)
      (λ q s. IsQuoted rented 1 6 none q × (s ≡ rented))
      (quote env 1 6 none rented)
quote-IsQuoted_example = quote-IsQuoted rented env 1 6 none

approve_commission-Decides_example : Decides env 1 office (approve_commission env 1 office)
approve_commission-Decides_example = approve_commission-Decides env 1 office

create_plan-IsSynchronized_example :
    Post (λ s. s ≡ office) (λ _. IsSynchronized 1) (create_plan env 1 half_year office)
create_plan-IsSynchronized_example = create_plan-IsSynchronized 1 env half_year office
