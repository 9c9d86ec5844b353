-- ===== src/Pricing/Updated.antt =====
-- `updatePlan` and `deletePlan` beside the price of the property
-- (src/modules/property-flex/flex-pricing.service.ts).
use deptoflex_back.Pricing.Synchronized.{IsSynchronized, IsThere, sync_rule}
use deptoflex_back.Prelude.{refl, ℕ, ◌≡◌}
use deptoflex_back.Pricing.Plans.{delete_plan, find_plan}
use deptoflex_back.Pricing.Update.{UpdatePricingPlan, check_months, update_plan}
use deptoflex_back.Store.{Db, bad_request, database, not_found}
use deptoflex_back.Store.Hoare.{
  Post, Triple, Triple-bind, Triple-gets, Triple-modify, Triple-or_throw, Triple-throw_if,
  Triple-when,
}

module _ (id plan_id : ℕ) (s : Db) where
  -- The database is as it was, with the property.
  abbrev Waiting : Db → Type 0
  Waiting s' = IsThere id s' × (s' ≡ s)

  find_plan_rule : Triple (λ s'. s' ≡ s) Waiting (find_plan id plan_id) (λ _. Waiting)
  unfolding find_plan
  find_plan_rule =
      Triple-bind (λ _. Waiting) _ _ (Triple-gets _ (λ _ p. p))
        λ o. Triple-or_throw o not_found (λ _ p. p.1) (λ _ _ _ p. p)

  check_months_rule :
      (dto : UpdatePricingPlan)
      → Triple (λ s'. s' ≡ s) Waiting (check_months plan_id dto) (λ _. Waiting)
  unfolding check_months
  check_months_rule dto =
      Triple-when _ _
        (λ _.
          Triple-bind (λ _. Waiting) _ _ (Triple-gets _ (λ _ p. p))
            λ o.
              Triple-bind (λ _. Waiting) _ _
                (Triple-or_throw o database (λ _ p. p.1) (λ _ _ _ p. p))
                λ _. Triple-throw_if _ bad_request (λ _ p. p.1) (λ _ _ p. p))
        (λ _ p. p)

  -- A property that is not deleted has, after the update of one of its plans, the price of its active
  -- plans, if it has any; an update that throws changes nothing.
  pub update_plan-IsSynchronized :
      (dto : UpdatePricingPlan)
      → IsThere id s
      → Post (λ s'. s' ≡ s) (λ _. IsSynchronized id) (update_plan id plan_id dto s)
  unfolding update_plan
  update_plan-IsSynchronized dto there =
      Triple.at
        (Triple-bind (λ _. Waiting) _ _ find_plan_rule
          λ _.
            Triple-bind (λ _. Waiting) _ _ (check_months_rule dto)
              λ _.
                Triple-bind (λ _. Waiting) _ _ (Triple-gets _ (λ _ p. p))
                  λ taken.
                    Triple-bind (λ _. Waiting) _ _
                      (Triple-throw_if taken database (λ _ p. p.1) (λ _ _ p. p))
                      λ _.
                        Triple-bind (λ _. IsThere id) _ _ (Triple-modify _ (λ _ p. p.0))
                          λ _. sync_rule id _)
        s (there, refl)

  -- A property that is not deleted has, after the deletion of one of its plans, the price of the
  -- active plans that are left, if there are any; a deletion that throws changes nothing.
  pub delete_plan-IsSynchronized :
      IsThere id s → Post (λ s'. s' ≡ s) (λ _. IsSynchronized id) (delete_plan id plan_id s)
  unfolding delete_plan
  delete_plan-IsSynchronized there =
      Triple.at
        (Triple-bind (λ _. Waiting) _ _ find_plan_rule
          λ _. Triple-bind (λ _. IsThere id) _ _ (Triple-modify _ (λ _ p. p.0)) λ _. sync_rule id _)
        s (there, refl)
