-- ===== src/Pricing/Plans.antt =====
-- `createPlan` and `deletePlan`, each of which brings the price of the property in line with its active
-- plans.
use deptoflex_back.Prelude.{
  Bool, List, Option, String, [], create, delete_many, exists, false, find_first, if◌then◌else◌,
  ltb, map, none, some, true, update_many, ℕ, ◌&&◌, ◌===◌, ◌==?◌, ◌==◌, ◌otherwise◌, ◌∷◌,
}
use deptoflex_back.Pricing.Quote.{active_plans, ensure_property}
use deptoflex_back.Store.{
  Action, Db, DepositRule, EntryCommissionRule, Env, FlexBooking, PlanCode, PricingPlan,
  PropertyFlex, bad_request, database, deposit_rule_enum, entry_commission_rule_enum, gets, modify,
  not_found, or_throw, plan_code_enum, throw_if, ◌>>=◌, ◌>>◌,
}

-- `CreatePricingPlanDto`
pub record CreatePricingPlan : Type 0 where
  pub code : PlanCode
  pub label : String
  pub min_months : ℕ
  pub max_months : Option ℕ
  pub monthly_rent : ℕ
  pub currency : Option String
  pub rent_includes_expenses : Option Bool
  pub rent_includes_utilities : Option Bool
  pub includes_linens : Option Bool
  pub deposit_rule : Option DepositRule
  pub custom_deposit_amount : Option ℕ
  pub entry_commission_rule : Option EntryCommissionRule
  pub conditions_text : Option String
  pub sort_order : Option ℕ
  pub is_active : Option Bool

-- `validateMonthsRange`, as a test of what it refuses
unfoldable pub months_are_reversed : ℕ → Option ℕ → Bool
months_are_reversed min_months none = false
months_are_reversed min_months (some max_months) = ltb max_months min_months

-- `data` of `propertyFlexPricingPlan.create`
unfoldable pub new_plan : Env → ℕ → CreatePricingPlan → List PricingPlan → PricingPlan
new_plan env property_flex_id dto rows = record {
  id = env.fresh (map (λ p. p.id) rows);
  property_flex_id = property_flex_id;
  code = dto.code;
  label = dto.label;
  min_months = dto.min_months;
  max_months = dto.max_months;
  monthly_rent = dto.monthly_rent;
  currency = dto.currency otherwise "ARS";
  rent_includes_expenses = dto.rent_includes_expenses otherwise false;
  rent_includes_utilities = dto.rent_includes_utilities otherwise false;
  includes_linens = dto.includes_linens otherwise false;
  deposit_rule = dto.deposit_rule otherwise DepositRule.third_of_month;
  custom_deposit_amount = dto.custom_deposit_amount;
  entry_commission_rule = dto.entry_commission_rule otherwise EntryCommissionRule.none_due;
  conditions_text = dto.conditions_text;
  sort_order = dto.sort_order otherwise 0;
  is_active = dto.is_active otherwise true;
}

-- The key (property, code) is unique.
unfoldable pub code_is_taken : ℕ → PlanCode → List PricingPlan → Bool
code_is_taken property_flex_id code rows =
    exists (λ p. p.property_flex_id == property_flex_id && p.code === code) rows

-- `[...plans].sort((a, b) => a.monthlyRent - b.monthlyRent)[0]`: the first of the cheapest, by the
-- first plan and the others
unfoldable pub cheapest : PricingPlan → List PricingPlan → PricingPlan
cheapest p [] = p
cheapest p (q ∷ qs) = cheapest (if ltb q.monthly_rent p.monthly_rent then q else p) qs

-- `Math.min(...plans.map((p) => p.minMonths))`
unfoldable pub least_months : ℕ → List PricingPlan → ℕ
least_months m [] = m
least_months m (q ∷ qs) = least_months (if ltb q.min_months m then q.min_months else m) qs

-- The `data` of the synchronization.
unfoldable pub price_by : PricingPlan → ℕ → PropertyFlex → PropertyFlex
price_by plan min_months p = record p {
  monthly_rate = plan.monthly_rent;
  min_months = min_months;
  currency = plan.currency;
}

-- `syncPropertyPriceFromPlans`, for the active plans
unfoldable pub sync_with : ℕ → List PricingPlan → Db → Db
unfolding cheapest least_months price_by
sync_with property_flex_id [] s = s
sync_with property_flex_id (p ∷ ps) s = record s {
  property_flexes =
      update_many (λ f. f.id == property_flex_id)
        (price_by (cheapest p ps) (least_months p.min_months ps)) s.property_flexes;
}

unfoldable pub sync_property_price : ℕ → Action (Unit {0})
unfolding sync_with
sync_property_price property_flex_id = do
  ensure_property property_flex_id
  modify λ s. sync_with property_flex_id (active_plans property_flex_id s.pricing_plans) s

-- `createPlan`
unfoldable pub create_plan : Env → ℕ → CreatePricingPlan → Action (Unit {0})
unfolding months_are_reversed new_plan code_is_taken sync_property_price
create_plan env property_flex_id dto = do
  ensure_property property_flex_id
  throw_if (months_are_reversed dto.min_months dto.max_months) bad_request
  throw_if (← gets (λ s. code_is_taken property_flex_id dto.code s.pricing_plans)) database
  modify λ s. record s {
    pricing_plans = create (new_plan env property_flex_id dto s.pricing_plans) s.pricing_plans;
  }
  sync_property_price property_flex_id

-- `getPlan`
unfoldable pub find_plan : ℕ → ℕ → Action PricingPlan
find_plan property_flex_id plan_id = do
  plan ← gets (λ s.
      find_first (λ p. p.id == plan_id && p.property_flex_id == property_flex_id) s.pricing_plans)
  or_throw plan not_found

-- `ON DELETE SET NULL`, for the bookings by a plan that is deleted
abbrev pub without_plan : FlexBooking → FlexBooking
without_plan b = record b { pricing_plan_id = none }

-- `deletePlan`
unfoldable pub delete_plan : ℕ → ℕ → Action (Unit {0})
unfolding find_plan sync_property_price
delete_plan property_flex_id plan_id = do
  find_plan property_flex_id plan_id
  modify λ s. record s {
    pricing_plans = delete_many (λ p. p.id == plan_id) s.pricing_plans;
    flex_bookings = update_many (λ b. b.pricing_plan_id ==? plan_id) without_plan s.flex_bookings;
  }
  sync_property_price property_flex_id
