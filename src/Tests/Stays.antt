-- ===== src/Tests/Stays.antt =====
-- The plans of a flex property, the search for its first free day, in months of thirty days, and a
-- notification of its payment.
use deptoflex_back.FlexAvailability.{
  BookedPeriod, Calendar, EndsWith, find_next_available_start, find_next_available_start-ends,
  is_range_available, ranges_overlap, search_from,
}
use deptoflex_back.Auth.{day}
use deptoflex_back.Prelude.{
  List, [], arith, exists, find_first, find_many, map, none, refl, some, text_or_null,
  to_lower_case, trim, update_many, ◌*◌, ◌+◌, ◌∷◌, ◌≡◌,
}
use deptoflex_back.Pricing.{
  UpdatePricingPlan, active_plans, apply_plan_update, cheapest, check_months,
  code_is_taken_by_other, delete_plan, ensure_property, find_plan, given_or, least_months,
  months_are_reversed, price_by, sort_by_order, sync_property_price, sync_with, update_plan,
}
use deptoflex_back.Pricing.Synchronized.{IsSynchronized}
use deptoflex_back.Pricing.Updated.{delete_plan-IsSynchronized, update_plan-IsSynchronized}
use deptoflex_back.Store.{Db, when, ◌>>=◌}
use deptoflex_back.Store.Hoare.{Post}
use deptoflex_back.Tests.{office, plan}
use deptoflex_back.Payments.Event.{
  NamedEvent, extract_webhook_event, extract_webhook_event-reads, ipn, is_empty_text, no_body,
  no_query, webhook_body,
}

abbrev thirty_days : Calendar
thirty_days day months = day + 30 * months

abbrev booked : List BookedPeriod
booked = record { start_date = 100; end_date = 140 } ∷ []

find_next_available_start-ends_example :
    EndsWith thirty_days booked 1 100 160 (find_next_available_start thirty_days booked 1 60 100 2)
find_next_available_start-ends_example =
    find_next_available_start-ends thirty_days booked 1 60 100 2 (omega arith)

free_again : find_next_available_start thirty_days booked 1 60 100 2 ≡ some (some 140)
unfolding find_next_available_start search_from is_range_available ranges_overlap exists
free_again = refl

booked_up : find_next_available_start thirty_days booked 1 30 100 1 ≡ some none
unfolding find_next_available_start search_from is_range_available ranges_overlap exists
booked_up = refl

-- The loft has plans for one and for more months.
abbrev planned : Db
planned = record office { pricing_plans = plan 1 1 (some 2) ∷ plan 2 3 none ∷ [] }

-- Longer and cheaper, and no longer limited
abbrev cheaper_stay : UpdatePricingPlan
cheaper_stay = record {
  code = none;
  label = some "";
  min_months = some 2;
  max_months = some none;
  monthly_rent = some 70000;
  currency = none;
  rent_includes_expenses = none;
  rent_includes_utilities = none;
  includes_linens = none;
  deposit_rule = none;
  custom_deposit_amount = none;
  entry_commission_rule = none;
  conditions_text = none;
  sort_order = none;
  is_active = none;
}

update_plan-IsSynchronized_example :
    Post (λ s'. s' ≡ planned) (λ _. IsSynchronized 1) (update_plan 1 1 cheaper_stay planned)
unfolding exists
update_plan-IsSynchronized_example = update_plan-IsSynchronized 1 1 planned cheaper_stay refl

delete_plan-IsSynchronized_example :
    Post (λ s'. s' ≡ planned) (λ _. IsSynchronized 1) (delete_plan 1 2 planned)
unfolding exists
delete_plan-IsSynchronized_example = delete_plan-IsSynchronized 1 2 planned refl

new_price :
    map (λ f. f.monthly_rate) (update_plan 1 1 cheaper_stay planned).1.property_flexes ≡ 70000 ∷ []
unfolding update_plan find_plan check_months months_are_reversed given_or code_is_taken_by_other
    apply_plan_update text_or_null sync_property_price sync_with cheapest least_months price_by
    active_plans ensure_property find_first exists when ◌>>=◌ sort_by_order find_many update_many
new_price = refl

abbrev paid_notice : NamedEvent
paid_notice = record { type_name = "payment"; resource_id = "9" }

extract_webhook_event-reads_example :
    (extract_webhook_event (ipn paid_notice) no_body ≡ some paid_notice)
    × (extract_webhook_event no_query (webhook_body "77" paid_notice) ≡ some paid_notice)
    × (extract_webhook_event no_query
          (record no_body { type_name = some "payment"; id = some "77" })
        ≡ none)
unfolding trim to_lower_case is_empty_text
extract_webhook_event-reads_example =
    extract_webhook_event-reads paid_notice "77" refl refl refl refl
