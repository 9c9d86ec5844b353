-- ===== src/Pricing/Choice.antt =====
-- Which plan `resolvePlan` of src/modules/property-flex/flex-pricing.service.ts chooses.
use deptoflex_back.Prelude.{
  All, All-mono, Bool, Bool-cases, List, Option, [], arith, exists, false, find_many, first, inl,
  inr, ltb, none, refl, some, true, ℕ, ◌&&◌, ◌∷◌, ◌≡◌, ◌≤◌,
}
use deptoflex_back.Pricing.Quote.{
  insert_by_min_months, months_fit_plan, resolve_plan, sort_by_min_months,
}
use deptoflex_back.Store.{PricingPlan}
use deptoflex_back.Prelude.Table.Answers.{find_many-All, find_many-back, find_many-empty}

module _ (months : ℕ) where
  -- The plan may serve a stay of so many months.
  abbrev pub serves : PricingPlan → Bool
  serves p = p.is_active && months_fit_plan months p

  -- The longest minimum of the list, or that the list is empty.
  abbrev IsLongest : List PricingPlan → Option PricingPlan → Type 0
  IsLongest xs none = xs ≡ []
  IsLongest xs (some p) = (serves p ≡ true) × All (λ q. q.min_months ≤ p.min_months) xs

  insert-IsLongest :
      (x : PricingPlan) (xs ys : List PricingPlan)
      → serves x ≡ true
      → IsLongest xs (first ys)
      → IsLongest (x ∷ xs) (first (insert_by_min_months x ys))
  unfolding insert_by_min_months
  insert-IsLongest x xs [] e h = (e, (omega arith, rw h tt))
  insert-IsLongest x xs (y ∷ ys) e h = elim (Bool-cases (ltb x.min_months y.min_months)) [
    | inl t ↦ rw t (h.0, (ground (arith, t), h.1))
    | inr f ↦ rw f (
      e,
      (
        omega arith,
        All-mono (λ q. q.min_months ≤ y.min_months) (λ q. q.min_months ≤ x.min_months)
            (λ q k. ground (arith, f, k)) xs h.1,
      ),
    )
  ]

  sort-IsLongest :
      (xs : List PricingPlan)
      → All (λ p. serves p ≡ true) xs
      → IsLongest xs (first (sort_by_min_months xs))
  unfolding sort_by_min_months
  sort-IsLongest [] h = refl
  sort-IsLongest (x ∷ xs) h =
      insert-IsLongest x xs (sort_by_min_months xs) h.0 (sort-IsLongest xs h.1)

  -- The choice among the plans: none serves, or the chosen one serves and no other that serves has a
  -- longer minimum.
  abbrev pub IsChoice : List PricingPlan → Option PricingPlan → Type 0
  IsChoice plans none = exists serves plans ≡ false
  IsChoice plans (some p) =
      (serves p ≡ true) × All (λ q. serves q ≡ true → q.min_months ≤ p.min_months) plans

  choice :
      (plans : List PricingPlan) (o : Option PricingPlan)
      → IsLongest (find_many serves plans) o
      → IsChoice plans o
  choice plans none h = find_many-empty serves plans h
  choice plans (some p) h =
      (h.0, find_many-back (λ q. q.min_months ≤ p.min_months) serves plans h.1)

  -- Without a plan's id, `resolvePlan` finds an active plan that the months fit, of those the one
  -- with the longest minimum, and it finds none only where no active plan fits.
  pub resolve_plan-IsChoice :
      (plans : List PricingPlan) → IsChoice plans (resolve_plan plans months none)
  unfolding resolve_plan
  resolve_plan-IsChoice plans =
      choice plans _ (sort-IsLongest (find_many serves plans) (find_many-All serves plans))
