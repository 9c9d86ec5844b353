-- ===== src/Pricing/Quote.antt =====
-- The quote: which plan serves a stay of so many months, and what the stay costs. Amounts are whole
-- numbers of cents. `Math.round` rounds a double: the nearest cent, but where the exact amount lies half
-- way between two cents, the double may lie on either side of it, and `Env.ties_up` says on which.
use deptoflex_back.Prelude.{
  Bool, List, Option, String, [], false, find_first, find_many, first, if◌then◌else◌, is_none, ltb,
  none, not, some, true, ℕ, ◌&&◌, ◌*◌, ◌+◌, ◌/◌, ◌==◌, ◌otherwise◌, ◌||◌, ◌∷◌,
}
use deptoflex_back.Store.{
  Action, DepositRule, EntryCommissionRule, Env, PlanCode, PricingPlan, PropertyFlex, bad_request,
  gets, not_found, or_throw, pure, ◌>>=◌,
}

-- `FlexPricingQuote`
pub record PricingQuote : Type 0 where
  pub pricing_plan_id : Option ℕ
  pub plan_code : Option PlanCode
  pub plan_label : Option String
  pub total_months : ℕ
  pub monthly_rent : ℕ
  pub total_amount : ℕ
  pub deposit_amount : ℕ
  pub entry_commission_amount : ℕ
  pub reservation_payment_amount : ℕ
  pub currency : String
  pub rent_includes_expenses : Bool
  pub rent_includes_utilities : Bool
  pub includes_linens : Bool
  pub conditions_text : Option String
  pub using_legacy_pricing : Bool

-- `monthsFitPlan`
unfoldable pub months_fit_plan : ℕ → PricingPlan → Bool
months_fit_plan total_months plan =
    if ltb total_months plan.min_months
    then false
    else elim plan.max_months [ none ↦ true | some m ↦ not (ltb m total_months) ]

-- `Math.round((amount / 3) * 100) / 100`, which is never half way
unfoldable pub third : ℕ → ℕ
third amount = (2 * amount + 3) / 6

-- `calculateDepositAmount`
unfoldable pub calculate_deposit_amount : ℕ → DepositRule → Option ℕ → ℕ
unfolding third
calculate_deposit_amount monthly_rent DepositRule.custom (some amount) = amount
calculate_deposit_amount monthly_rent DepositRule.custom none = third monthly_rent
calculate_deposit_amount monthly_rent DepositRule.one_month_rent amount = monthly_rent
calculate_deposit_amount monthly_rent DepositRule.third_of_month amount = third monthly_rent

-- `calculateEntryCommission`
unfoldable pub calculate_entry_commission : Env → ℕ → EntryCommissionRule → ℕ
unfolding third
calculate_entry_commission env monthly_rent EntryCommissionRule.third_first_month =
    third monthly_rent
calculate_entry_commission env monthly_rent EntryCommissionRule.half_first_month =
    if env.ties_up EntryCommissionRule.half_first_month monthly_rent
    then (monthly_rent + 1) / 2
    else monthly_rent / 2
calculate_entry_commission env monthly_rent EntryCommissionRule.seventy_first_month =
    if env.ties_up EntryCommissionRule.seventy_first_month monthly_rent
    then (7 * monthly_rent + 5) / 10
    else (7 * monthly_rent + 4) / 10
calculate_entry_commission env monthly_rent EntryCommissionRule.full_first_month = monthly_rent
calculate_entry_commission env monthly_rent EntryCommissionRule.none_due = 0

-- `reservationPaymentFromProperty`: amounts are not negative, so `amount > 0` leaves 0 alone.
unfoldable pub reservation_payment_from_property : PropertyFlex → ℕ
reservation_payment_from_property p = p.reservation_payment_amount otherwise 0

-- `.sort((a, b) => b.minMonths - a.minMonths)`: stable, the longest minimum first
unfoldable pub insert_by_min_months : PricingPlan → List PricingPlan → List PricingPlan
insert_by_min_months x [] = x ∷ []
insert_by_min_months x (y ∷ ys) =
    let rest = insert_by_min_months x ys in
    if ltb x.min_months y.min_months then y ∷ rest else x ∷ y ∷ ys

unfoldable pub sort_by_min_months : List PricingPlan → List PricingPlan
unfolding insert_by_min_months
sort_by_min_months [] = []
sort_by_min_months (x ∷ xs) = insert_by_min_months x (sort_by_min_months xs)

-- `resolvePlan`
unfoldable pub resolve_plan : List PricingPlan → ℕ → Option ℕ → Option PricingPlan
resolve_plan plans total_months (some plan_id) =
    elim (find_first (λ p. p.id == plan_id && p.is_active) plans) [
      | none ↦ none
      | some p ↦ if months_fit_plan total_months p then some p else none
    ]
resolve_plan plans total_months none =
    first
      (sort_by_min_months (find_many (λ p. p.is_active && months_fit_plan total_months p) plans))

-- `ensureProperty`
unfoldable pub ensure_property : ℕ → Action PropertyFlex
ensure_property property_flex_id = do
  property ←
      gets
        (λ s. find_first (λ p. p.id == property_flex_id && is_none p.deleted_at) s.property_flexes)
  or_throw property not_found

-- `listPlans(propertyFlexId, true)`, in its order: `sortOrder`, then `minMonths`
unfoldable pub insert_by_order : PricingPlan → List PricingPlan → List PricingPlan
insert_by_order x [] = x ∷ []
insert_by_order x (y ∷ ys) =
    let rest = insert_by_order x ys in
    if ltb y.sort_order x.sort_order
      || (y.sort_order == x.sort_order && ltb y.min_months x.min_months)
    then y ∷ rest
    else x ∷ y ∷ ys

unfoldable pub sort_by_order : List PricingPlan → List PricingPlan
unfolding insert_by_order
sort_by_order [] = []
sort_by_order (x ∷ xs) = insert_by_order x (sort_by_order xs)

unfoldable pub active_plans : ℕ → List PricingPlan → List PricingPlan
active_plans property_flex_id plans =
    sort_by_order (find_many (λ p. p.property_flex_id == property_flex_id && p.is_active) plans)

-- The quote of a property without active plans.
unfoldable pub legacy_quote : PropertyFlex → ℕ → PricingQuote
legacy_quote p total_months = record {
  pricing_plan_id = none;
  plan_code = none;
  plan_label = none;
  total_months = total_months;
  monthly_rent = p.monthly_rate;
  total_amount = p.monthly_rate * total_months;
  deposit_amount =
      p.deposit_amount
      otherwise calculate_deposit_amount p.monthly_rate DepositRule.third_of_month none;
  entry_commission_amount = 0;
  reservation_payment_amount = reservation_payment_from_property p;
  currency = p.currency;
  rent_includes_expenses = false;
  rent_includes_utilities = false;
  includes_linens = false;
  conditions_text = none;
  using_legacy_pricing = true;
}

-- The quote by a plan.
unfoldable pub plan_quote : Env → PropertyFlex → ℕ → PricingPlan → PricingQuote
plan_quote env p total_months plan = record {
  pricing_plan_id = some plan.id;
  plan_code = some plan.code;
  plan_label = some plan.label;
  total_months = total_months;
  monthly_rent = plan.monthly_rent;
  total_amount = plan.monthly_rent * total_months;
  deposit_amount =
      calculate_deposit_amount plan.monthly_rent plan.deposit_rule plan.custom_deposit_amount;
  entry_commission_amount =
      calculate_entry_commission env plan.monthly_rent plan.entry_commission_rule;
  reservation_payment_amount = reservation_payment_from_property p;
  currency = plan.currency;
  rent_includes_expenses = plan.rent_includes_expenses;
  rent_includes_utilities = plan.rent_includes_utilities;
  includes_linens = plan.includes_linens;
  conditions_text = plan.conditions_text;
  using_legacy_pricing = false;
}

-- `quote`, for the plans that were found
unfoldable pub quote_from :
    Env → PropertyFlex → List PricingPlan → ℕ → Option ℕ → Action PricingQuote
quote_from env p [] total_months plan_id = pure (legacy_quote p total_months)
quote_from env p (x ∷ xs) total_months plan_id = do
  plan ← or_throw (resolve_plan (x ∷ xs) total_months plan_id) bad_request
  pure (plan_quote env p total_months plan)

unfoldable pub quote : Env → ℕ → ℕ → Option ℕ → Action PricingQuote
quote env property_flex_id total_months plan_id = do
  property ← ensure_property property_flex_id
  plans ← gets (λ s. active_plans property_flex_id s.pricing_plans)
  quote_from env property plans total_months plan_id
