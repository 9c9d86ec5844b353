-- ===== src/Pricing/Synchronized.antt =====
-- The price of a property follows its active plans
-- (`syncPropertyPriceFromPlans` of src/modules/property-flex/flex-pricing.service.ts).
use deptoflex_back.Prelude.{
  All, Bool, List, Option, [], ap, arith, exists, find_first, if◌then◌else◌, is_none, is_some, ltb,
  none, refl, some, sym, true, ℕ, ◌&&◌, ◌==◌, ◌||◌, ◌∙◌, ◌∷◌, ◌≡◌, ◌≤◌,
}
use deptoflex_back.Pricing.Plans.{
  CreatePricingPlan, cheapest, create_plan, least_months, price_by, sync_property_price, sync_with,
}
use deptoflex_back.Store.{
  Db, Env, PricingPlan, PropertyFlex, bad_request, database, not_found, or_throw, pure, throw,
}
use deptoflex_back.Pricing.Quote.{active_plans, ensure_property}
use deptoflex_back.Prelude.Table.Answers.{update_many-done}
use deptoflex_back.Prelude.Table.Laws.{find_first-exists}
use deptoflex_back.Store.Hoare.{
  Post, Triple, Triple-bind, Triple-gets, Triple-modify, Triple-or_throw, Triple-throw_if,
}

abbrev cheaper : PricingPlan → PricingPlan → PricingPlan
cheaper p q = if ltb q.monthly_rent p.monthly_rent then q else p

cheaper_bound :
    (p q : PricingPlan)
    → ((cheaper p q).monthly_rent ≤ p.monthly_rent) × ((cheaper p q).monthly_rent ≤ q.monthly_rent)
cheaper_bound p q = (ground arith, ground arith)

cheapest_bound :
    (p : PricingPlan) (qs : List PricingPlan)
    → ((cheapest p qs).monthly_rent ≤ p.monthly_rent)
      × All (λ q. (cheapest p qs).monthly_rent ≤ q.monthly_rent) qs
unfolding cheapest
cheapest_bound p [] = (omega arith, tt)
cheapest_bound p (q ∷ qs) =
    let h = cheapest_bound (cheaper p q) qs in
    let c = cheaper_bound p q in (omega (arith, h.0, c.0), (omega (arith, h.0, c.1), h.1))

cheaper_member :
    (p q : PricingPlan) (rent : ℕ) (others : Bool)
    → ((cheaper p q).monthly_rent == rent || others) ≡ true
    → (p.monthly_rent == rent || (q.monthly_rent == rent || others)) ≡ true
cheaper_member p q rent others e = ground arith

cheapest_member :
    (p : PricingPlan) (qs : List PricingPlan)
    → exists (λ q. q.monthly_rent == (cheapest p qs).monthly_rent) (p ∷ qs) ≡ true
unfolding cheapest exists
cheapest_member p [] = ground arith
cheapest_member p (q ∷ qs) = cheaper_member p q _ _ (cheapest_member (cheaper p q) qs)

least_months_bound :
    (m : ℕ) (qs : List PricingPlan)
    → (least_months m qs ≤ m) × All (λ q. least_months m qs ≤ q.min_months) qs
unfolding least_months
least_months_bound m [] = (omega arith, tt)
least_months_bound m (q ∷ qs) =
    let h = least_months_bound (if ltb q.min_months m then q.min_months else m) qs in
    let c : ((if ltb q.min_months m then q.min_months else m) ≤ m)
        × ((if ltb q.min_months m then q.min_months else m) ≤ q.min_months) =
      (ground arith, ground arith) in
    (omega (arith, h.0, c.0), (omega (arith, h.0, c.1), h.1))

-- The property asks the least rent of the plans, and no more months than any of them.
pub record IsPriced (plans : List PricingPlan) (f : PropertyFlex) : Type 0 where
  pub rent_bound : All (λ q. f.monthly_rate ≤ q.monthly_rent) plans
  pub rent_member : exists (λ q. q.monthly_rent == f.monthly_rate) plans ≡ true
  pub months_bound : All (λ q. f.min_months ≤ q.min_months) plans

price_by-IsPriced :
    (p : PricingPlan) (ps : List PricingPlan) (f : PropertyFlex)
    → IsPriced (p ∷ ps) (price_by (cheapest p ps) (least_months p.min_months ps) f)
unfolding price_by
price_by-IsPriced p ps f = record {
  rent_bound = cheapest_bound p ps;
  rent_member = cheapest_member p ps;
  months_bound = least_months_bound p.min_months ps;
}

every : {A : Type 0} (P : A → Type 0) → ((x : A) → P x) → (xs : List A) → All P xs
every P h [] = tt
every P h (x ∷ xs) = (h x, every P h xs)

-- The rows of the property ask the price of its active plans, if it has any.
abbrev pub FollowsPlans : List PricingPlan → PropertyFlex → Type 0
FollowsPlans [] f = Unit
FollowsPlans (p ∷ ps) f = IsPriced (p ∷ ps) f

module _ (id : ℕ) where
  abbrev pub IsSynchronized : Db → Type 0
  IsSynchronized s =
      All (λ f. (f.id == id) ≡ true → FollowsPlans (active_plans id s.pricing_plans) f)
        s.property_flexes

  abbrev pub IsThere : Db → Type 0
  IsThere s = exists (λ f. f.id == id && is_none f.deleted_at) s.property_flexes ≡ true

  sync_with-plans :
      (plans : List PricingPlan) (s : Db) → (sync_with id plans s).pricing_plans ≡ s.pricing_plans
  unfolding sync_with
  sync_with-plans [] s = refl
  sync_with-plans (p ∷ ps) s = refl

  sync_with-FollowsPlans :
      (plans : List PricingPlan) (s : Db)
      → All (λ f. (f.id == id) ≡ true → FollowsPlans plans f) (sync_with id plans s).property_flexes
  unfolding sync_with
  sync_with-FollowsPlans [] s = every _ (λ f _. tt) s.property_flexes
  sync_with-FollowsPlans (p ∷ ps) s =
      update_many-done (IsPriced (p ∷ ps)) (λ f. f.id == id) _ (price_by-IsPriced p ps)
        s.property_flexes

  -- The query of `ensureProperty` throws just where no row is there.
  ensure_rule :
      (E P : Db → Type 0)
      → ((s : Db) → P s → E s)
      → Triple E P (ensure_property id) (λ _ s. IsThere s × P s)
  unfolding ensure_property
  ensure_rule E P h =
      Triple-bind
        (λ o s. (o ≡ find_first (λ f. f.id == id && is_none f.deleted_at) s.property_flexes) × P s)
        _ _ (Triple-gets _ (λ _ p. (refl, p)))
        λ o.
          Triple-or_throw o not_found (λ s p. h s p.1)
            (λ f e s p.
              (sym (find_first-exists _ s.property_flexes) ∙ ap is_some (sym p.0 ∙ e), p.1))

  present_rule :
      (E : Db → Type 0) (o : Option PropertyFlex)
      → Triple E (λ _. is_some o ≡ true) (or_throw o not_found) (λ _ _. Unit {0})
  unfolding or_throw throw pure
  present_rule E none = record { at = λ s p. absurd (ground (arith, p)) }
  present_rule E (some f) = record { at = λ s p. tt }

  pub sync_rule :
      (E : Db → Type 0) → Triple E IsThere (sync_property_price id) (λ _. IsSynchronized)
  unfolding sync_property_price ensure_property
  sync_rule E =
      Triple-bind (λ _ _. Unit {0}) _ _
        (Triple-bind (λ o _. is_some o ≡ true) _ _
          (Triple-gets _ (λ s t. find_first-exists _ s.property_flexes ∙ t)) λ o. present_rule E o)
        λ _. Triple-modify _ (λ s _.
          rw (sync_with-plans (active_plans id s.pricing_plans) s)
            (sync_with-FollowsPlans (active_plans id s.pricing_plans) s))

  -- Creating a plan throws and changes nothing, or leaves the rows of the property with the price of
  -- its active plans, if it has any: the least rent of them, and no more months than any asks for.
  pub create_plan-IsSynchronized :
      (env : Env) (dto : CreatePricingPlan) (s : Db)
      → Post (λ s'. s' ≡ s) (λ _. IsSynchronized) (create_plan env id dto s)
  unfolding create_plan
  create_plan-IsSynchronized env dto s =
      Triple.at
        (Triple-bind (λ _ s'. IsThere s' × (s' ≡ s)) _ _ (ensure_rule _ (λ s'. s' ≡ s) (λ _ e. e))
          λ _.
            Triple-bind (λ _ s'. IsThere s' × (s' ≡ s)) _ _
              (Triple-throw_if _ bad_request (λ _ p. p.1) (λ _ _ p. p))
              λ _.
                Triple-bind (λ _ s'. IsThere s' × (s' ≡ s)) _ _ (Triple-gets _ (λ _ p. p))
                  λ taken.
                    Triple-bind (λ _ s'. IsThere s' × (s' ≡ s)) _ _
                      (Triple-throw_if taken database (λ _ p. p.1) (λ _ _ p. p))
                      λ _.
                        Triple-bind (λ _. IsThere) _ _ (Triple-modify _ (λ _ p. p.0))
                          λ _. sync_rule _)
        s refl
