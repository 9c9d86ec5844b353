-- ===== src/Pricing/Update.antt =====
-- `updatePlan` of src/modules/property-flex/flex-pricing.service.ts.
use mathlib.Core.Option
use deptoflex_back.Prelude.{
  Bool, List, Option, String, exists, false, find_first, is_some, none, not, some, text_or_null,
  update_many, ℕ, ◌&&◌, ◌===◌, ◌==◌, ◌otherwise◌, ◌||◌,
}
use deptoflex_back.Pricing.Plans.{find_plan, months_are_reversed, sync_property_price}
use deptoflex_back.Store.{
  Action, DepositRule, EntryCommissionRule, PlanCode, PricingPlan, bad_request, database,
  deposit_rule_enum, entry_commission_rule_enum, gets, modify, or_throw, plan_code_enum, throw_if,
  when, ◌>>=◌, ◌>>◌,
}

-- `UpdatePricingPlanDto`: `none` where a field is not given; of those that may be null, `some none` is
-- null.
pub record UpdatePricingPlan : Type 0 where
  pub code : Option PlanCode
  pub label : Option String
  pub min_months : Option ℕ
  pub max_months : Option (Option ℕ)
  pub monthly_rent : Option ℕ
  pub currency : Option String
  pub rent_includes_expenses : Option Bool
  pub rent_includes_utilities : Option Bool
  pub includes_linens : Option Bool
  pub deposit_rule : Option DepositRule
  pub custom_deposit_amount : Option (Option ℕ)
  pub entry_commission_rule : Option EntryCommissionRule
  pub conditions_text : Option (Option String)
  pub sort_order : Option ℕ
  pub is_active : Option Bool

-- `a ?? b ?? undefined`, for a field that may be missing or null
unfoldable pub given_or : Option (Option ℕ) → Option ℕ → Option ℕ
given_or (some (some a)) b = some a
given_or (some none) b = b
given_or none b = b

-- `data` of `propertyFlexPricingPlan.update`
unfoldable pub apply_plan_update : UpdatePricingPlan → PricingPlan → PricingPlan
unfolding text_or_null
apply_plan_update dto p = record p {
  code = dto.code otherwise p.code;
  label = text_or_null dto.label otherwise p.label;
  min_months = dto.min_months otherwise p.min_months;
  max_months = dto.max_months otherwise p.max_months;
  monthly_rent = dto.monthly_rent otherwise p.monthly_rent;
  currency = text_or_null dto.currency otherwise p.currency;
  rent_includes_expenses = dto.rent_includes_expenses otherwise p.rent_includes_expenses;
  rent_includes_utilities = dto.rent_includes_utilities otherwise p.rent_includes_utilities;
  includes_linens = dto.includes_linens otherwise p.includes_linens;
  deposit_rule = dto.deposit_rule otherwise p.deposit_rule;
  custom_deposit_amount = dto.custom_deposit_amount otherwise p.custom_deposit_amount;
  entry_commission_rule = dto.entry_commission_rule otherwise p.entry_commission_rule;
  conditions_text = Option.map text_or_null dto.conditions_text otherwise p.conditions_text;
  sort_order = dto.sort_order otherwise p.sort_order;
  is_active = dto.is_active otherwise p.is_active;
}

-- Another plan of the property has the code that this one gets.
unfoldable pub code_is_taken_by_other : ℕ → ℕ → Option PlanCode → List PricingPlan → Bool
code_is_taken_by_other property_flex_id plan_id none rows = false
code_is_taken_by_other property_flex_id plan_id (some code) rows =
    exists (λ p. p.property_flex_id == property_flex_id && p.code === code && not (p.id == plan_id))
      rows

-- The range of months that a plan gets is checked where the request has one of its ends.
unfoldable pub check_months : ℕ → UpdatePricingPlan → Action (Unit {0})
unfolding months_are_reversed given_or
check_months plan_id dto = when (is_some dto.min_months || is_some dto.max_months) do
  existing ← gets (λ s. find_first (λ p. p.id == plan_id) s.pricing_plans)
  existing ← or_throw existing database
  throw_if
      (months_are_reversed (dto.min_months otherwise existing.min_months)
        (given_or dto.max_months existing.max_months))
      bad_request

-- `updatePlan`
unfoldable pub update_plan : ℕ → ℕ → UpdatePricingPlan → Action (Unit {0})
unfolding find_plan check_months code_is_taken_by_other apply_plan_update sync_property_price
update_plan property_flex_id plan_id dto = do
  find_plan property_flex_id plan_id
  check_months plan_id dto
  throw_if (← gets (λ s. code_is_taken_by_other property_flex_id plan_id dto.code s.pricing_plans))
      database
  modify λ s. record s {
    pricing_plans = update_many (λ p. p.id == plan_id) (apply_plan_update dto) s.pricing_plans;
  }
  sync_property_price property_flex_id
