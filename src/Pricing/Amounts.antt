-- ===== src/Pricing/Amounts.antt =====
-- The plan and the amounts of a quote (src/modules/property-flex/flex-pricing.service.ts).
use mathlib.Core.Option.{some-injective}
use deptoflex_back.Pricing.Choice.{IsChoice, resolve_plan-IsChoice, serves}
use deptoflex_back.Pricing.Quote.{
  PricingQuote, active_plans, calculate_deposit_amount, calculate_entry_commission, ensure_property,
  legacy_quote, months_fit_plan, plan_quote, quote, quote_from, resolve_plan, third,
}
use deptoflex_back.Prelude.{
  Bool, List, Option, [], ap, arith, false, find_first, if◌then◌else◌, is_none, none, refl, some,
  sym, true, ℕ, ◌&&◌, ◌*◌, ◌+◌, ◌==◌, ◌otherwise◌, ◌∙◌, ◌∷◌, ◌≡◌, ◌≤◌,
}
use deptoflex_back.Prelude.Table.Laws.{find_first-test}
use deptoflex_back.Store.{
  Db, DepositRule, EntryCommissionRule, Env, PricingPlan, PropertyFlex, bad_request, not_found,
}
use deptoflex_back.Store.Hoare.{
  Post, Triple, Triple-bind, Triple-gets, Triple-or_throw, Triple-pure,
}

-- The amount is a cent nearest to so many parts, of so many, of the rent.
abbrev pub IsNearest : ℕ × ℕ → ℕ → ℕ → Type 0
IsNearest share rent amount =
    (2 * (share.1 * amount) ≤ 2 * (share.0 * rent) + share.1)
    × (2 * (share.0 * rent) ≤ 2 * (share.1 * amount) + share.1)

-- The share of the first month's rent that is the entry commission
abbrev pub commission_share : EntryCommissionRule → ℕ × ℕ
commission_share EntryCommissionRule.third_first_month = (1, 3)
commission_share EntryCommissionRule.half_first_month = (1, 2)
commission_share EntryCommissionRule.seventy_first_month = (7, 10)
commission_share EntryCommissionRule.full_first_month = (1, 1)
commission_share EntryCommissionRule.none_due = (0, 1)

-- The deposit that a rule asks for, and the amount that it may name
abbrev pub IsDeposit : DepositRule → Option ℕ → ℕ → ℕ → Type 0
IsDeposit DepositRule.custom (some named) rent amount = amount ≡ named
IsDeposit DepositRule.custom none rent amount = IsNearest (1, 3) rent amount
IsDeposit DepositRule.one_month_rent named rent amount = amount ≡ rent
IsDeposit DepositRule.third_of_month named rent amount = IsNearest (1, 3) rent amount

calculate_entry_commission-IsNearest :
    (env : Env) (rent : ℕ) (rule : EntryCommissionRule)
    → IsNearest (commission_share rule) rent (calculate_entry_commission env rent rule)
unfolding calculate_entry_commission third
calculate_entry_commission-IsNearest env rent EntryCommissionRule.third_first_month =
    (omega arith, omega arith)
calculate_entry_commission-IsNearest env rent EntryCommissionRule.half_first_month =
    (ground arith, ground arith)
calculate_entry_commission-IsNearest env rent EntryCommissionRule.seventy_first_month =
    (ground arith, ground arith)
calculate_entry_commission-IsNearest env rent EntryCommissionRule.full_first_month =
    (omega arith, omega arith)
calculate_entry_commission-IsNearest env rent EntryCommissionRule.none_due =
    (omega arith, omega arith)

calculate_deposit_amount-IsDeposit :
    (rent : ℕ) (rule : DepositRule) (named : Option ℕ)
    → IsDeposit rule named rent (calculate_deposit_amount rent rule named)
unfolding calculate_deposit_amount third
calculate_deposit_amount-IsDeposit rent DepositRule.custom (some named) = refl
calculate_deposit_amount-IsDeposit rent DepositRule.custom none = (omega arith, omega arith)
calculate_deposit_amount-IsDeposit rent DepositRule.one_month_rent named = refl
calculate_deposit_amount-IsDeposit rent DepositRule.third_of_month named =
    (omega arith, omega arith)

chosen-serves :
    (months : ℕ) (plans : List PricingPlan) (o : Option PricingPlan) {plan : PricingPlan}
    → IsChoice months plans o
    → o ≡ some plan
    → serves months plan ≡ true
chosen-serves months plans none h e = cc
chosen-serves months plans (some p) h e = rw (← some-injective _ _ e) h.0

fitting-serves :
    (months : ℕ) (p : PricingPlan) (fits : Bool) {plan : PricingPlan}
    → months_fit_plan months p ≡ fits
    → p.is_active ≡ true
    → (if fits then some p else none) ≡ some plan
    → serves months plan ≡ true
fitting-serves months p false f a e = cc
fitting-serves months p true f a e = rw (← some-injective _ _ e) (rw (f, a) refl)

found-serves :
    (months id : ℕ) (o : Option PricingPlan) {plan : PricingPlan}
    → ((p : PricingPlan) → o ≡ some p → (p.id == id && p.is_active) ≡ true)
    → elim o [ none ↦ none | some p ↦ if months_fit_plan months p then some p else none ]
      ≡ some plan
    → serves months plan ≡ true
found-serves months id none h e = cc
found-serves months id (some p) {plan} h e =
    fitting-serves months p (months_fit_plan months p) refl (ground (arith, h p refl)) e

resolve_plan-serves :
    (months : ℕ) (plans : List PricingPlan) (plan_id : Option ℕ) {plan : PricingPlan}
    → resolve_plan plans months plan_id ≡ some plan
    → serves months plan ≡ true
unfolding resolve_plan
resolve_plan-serves months plans none e =
    chosen-serves months plans (resolve_plan plans months none) (resolve_plan-IsChoice months plans)
      e
resolve_plan-serves months plans (some id) {plan} e =
    found-serves months id (find_first (λ p. p.id == id && p.is_active) plans)
      (λ p f. find_first-test (λ p. p.id == id && p.is_active) plans {x = p} f) e

-- The plan that a quote is by, of those that are active, and what the quote says of it
pub record IsByPlan (months : ℕ) (plan_id : Option ℕ) (plans : List PricingPlan) (q : PricingQuote)
    : Type 0 where
  pub plan : PricingPlan
  pub chosen : resolve_plan plans months plan_id ≡ some plan
  pub active : serves months plan ≡ true
  pub named : q.pricing_plan_id ≡ some plan.id
  pub total : q.total_amount ≡ plan.monthly_rent * months
  pub commission :
      IsNearest
        (commission_share plan.entry_commission_rule)
        plan.monthly_rent
        q.entry_commission_amount
  pub deposit :
      IsDeposit plan.deposit_rule plan.custom_deposit_amount plan.monthly_rent q.deposit_amount

-- The amounts of a property without active plans
pub record IsByProperty (months : ℕ) (p : PropertyFlex) (q : PricingQuote) : Type 0 where
  pub unnamed : q.pricing_plan_id ≡ none
  pub total : q.total_amount ≡ p.monthly_rate * months
  pub commission : q.entry_commission_amount ≡ 0
  pub deposit : IsDeposit DepositRule.custom p.deposit_amount p.monthly_rate q.deposit_amount

-- A quote for so many months, by the active plans of the property if it has any
abbrev pub Quotes : ℕ → Option ℕ → PropertyFlex → List PricingPlan → PricingQuote → Type 0
Quotes months plan_id p [] q = IsByProperty months p q
Quotes months plan_id p (x ∷ xs) q = IsByPlan months plan_id (x ∷ xs) q

legacy-IsDeposit :
    (rent : ℕ) (named : Option ℕ)
    → IsDeposit DepositRule.custom named rent
        (named otherwise calculate_deposit_amount rent DepositRule.third_of_month none)
unfolding calculate_deposit_amount third
legacy-IsDeposit rent none = (omega arith, omega arith)
legacy-IsDeposit rent (some named) = refl

legacy_quote-IsByProperty :
    (p : PropertyFlex) (months : ℕ) → IsByProperty months p (legacy_quote p months)
unfolding legacy_quote
legacy_quote-IsByProperty p months = record {
  unnamed = refl;
  total = refl;
  commission = refl;
  deposit = legacy-IsDeposit p.monthly_rate p.deposit_amount;
}

plan_quote-IsByPlan :
    (env : Env) (p : PropertyFlex) (months : ℕ) (plan_id : Option ℕ) (plans : List PricingPlan)
    (plan : PricingPlan)
    → resolve_plan plans months plan_id ≡ some plan
    → IsByPlan months plan_id plans (plan_quote env p months plan)
unfolding plan_quote
plan_quote-IsByPlan env p months plan_id plans plan e = record {
  plan = plan;
  chosen = e;
  active = resolve_plan-serves months plans plan_id e;
  named = refl;
  total = refl;
  commission =
      calculate_entry_commission-IsNearest env plan.monthly_rent plan.entry_commission_rule;
  deposit =
      calculate_deposit_amount-IsDeposit plan.monthly_rent plan.deposit_rule
        plan.custom_deposit_amount;
}

-- The property of the id that is not deleted
abbrev pub quoted_property : ℕ → Db → Option PropertyFlex
quoted_property id s = find_first (λ p. p.id == id && is_none p.deleted_at) s.property_flexes

module _ (s : Db) where
  abbrev Same : Db → Type 0
  Same s' = s' ≡ s

  -- What a quote answers
  abbrev pub IsQuoted : ℕ → ℕ → Option ℕ → PricingQuote → Type 0
  IsQuoted id months plan_id q =
      (p : PropertyFlex) × (quoted_property id s ≡ some p)
      × Quotes months plan_id p (active_plans id s.pricing_plans) q

  -- The property and its plans have been read, and nothing has changed.
  abbrev HasRead : ℕ → PropertyFlex → List PricingPlan → Db → Type 0
  HasRead id p plans s' =
      (quoted_property id s ≡ some p) × (active_plans id s.pricing_plans ≡ plans) × Same s'

  read_quote :
      (id months : ℕ) (plan_id : Option ℕ) (p : PropertyFlex) (plans : List PricingPlan)
      (q : PricingQuote) (s' : Db)
      → Quotes months plan_id p plans q
      → HasRead id p plans s'
      → IsQuoted id months plan_id q × Same s'
  read_quote id months plan_id p plans q s' h r = ((p, r.0, rw r.1 h), r.2)

  quote_from_rule :
      (env : Env) (id : ℕ) (p : PropertyFlex) (plans : List PricingPlan) (months : ℕ)
      (plan_id : Option ℕ)
      → Triple Same
          (HasRead id p plans)
          (quote_from env p plans months plan_id)
          (λ q s'. IsQuoted id months plan_id q × Same s')
  unfolding quote_from
  quote_from_rule env id p [] months plan_id =
      Triple-pure _
        (λ s' r. read_quote id months plan_id p [] _ s' (legacy_quote-IsByProperty p months) r)
  quote_from_rule env id p (x ∷ xs) months plan_id =
      Triple-bind
        (λ plan s'. (resolve_plan (x ∷ xs) months plan_id ≡ some plan) × HasRead id p (x ∷ xs) s') _
        _ (Triple-or_throw _ bad_request (λ _ r. r.2) (λ _ f _ r. (f, r)))
        λ plan. Triple-pure _ (λ s' r.
          read_quote id months plan_id p (x ∷ xs) _ s'
            (plan_quote-IsByPlan env p months plan_id (x ∷ xs) plan r.0) r.1)

  -- A quote changes nothing. Where it returns, the property is there, and the total is the rent of all
  -- months. With active plans, the quote is by the plan that `resolvePlan` chooses, which is active and
  -- fits the months; the entry commission is a cent nearest to the share of the rent that the plan's
  -- rule names (a third, a half, seven tenths, all or nothing), and the deposit is the one of its rule.
  -- Without active plans there is no commission, and the deposit is the property's, or a third.
  pub quote-IsQuoted :
      (env : Env) (id months : ℕ) (plan_id : Option ℕ)
      → Post Same (λ q s'. IsQuoted id months plan_id q × Same s') (quote env id months plan_id s)
  unfolding quote ensure_property
  quote-IsQuoted env id months plan_id =
      Triple.at
        (Triple-bind (λ p s'. (quoted_property id s ≡ some p) × Same s') _ _
          (Triple-bind (λ o s'. (quoted_property id s ≡ o) × Same s') _ _
            (Triple-gets _ (λ s' e. (ap (quoted_property id) (sym e), e)))
            λ o. Triple-or_throw o not_found (λ _ e. e.1) (λ _ f _ e. (e.0 ∙ f, e.1)))
          λ p.
            Triple-bind (HasRead id p) _ _
              (Triple-gets _
                (λ s' e. (e.0, ap (λ r. active_plans id r.pricing_plans) (sym e.1), e.1)))
              λ plans. quote_from_rule env id p plans months plan_id)
        s refl
