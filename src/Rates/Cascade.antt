-- ===== src/Rates/Cascade.antt =====
-- An agreement with an ambassador comes first
-- (`upsertAmbassadorOverride` and `resolveFlexRateWithSource` of
-- src/modules/commissions/commission-rates.service.ts).
use deptoflex_back.Prelude.{
  ==_self, Bool, Bool-cases, List, Option, [], ap, arith, exists, false, find_first, inl, inr, map,
  none, refl, some, ℕ, ◌==◌, ◌otherwise◌, ◌∙◌, ◌∷◌, ◌≡◌,
}
use deptoflex_back.Rates.Overrides.{
  is_override, live_flex, upsert_ambassador_override, upsert_override,
}
use deptoflex_back.Rates.Resolve.{
  RateSource, ResolvedRate, cascade, find_override, resolve_flex_rate_with_source,
}
use deptoflex_back.Store.{Booking, Db, Env, FlexBooking, RateOverride, ◌>>=◌}
use deptoflex_back.Prelude.Table.Laws.{find_first-create}
use deptoflex_back.Rates.Recalculate.{
  flex_booking_of, recalculate_booking_commission, recalculate_each, recalculate_flex,
  recalculate_for_override,
}
use deptoflex_back.Store.Hoare.{Post}
use deptoflex_back.Prelude.Table.Answers.{find_first-update_self}

abbrev rate_of : Option RateOverride → Option ℕ
rate_of none = none
rate_of (some o) = some o.rate

find_first-none :
    {A : Type 0} (p : A → Bool) (xs : List A) → exists p xs ≡ false → find_first p xs ≡ none
unfolding find_first exists
find_first-none p [] e = refl
find_first-none p (x ∷ xs) e = ground (arith, find_first-none p xs)

abbrev new_override : Env → ℕ → ℕ → ℕ → List RateOverride → RateOverride
new_override env property profile rate rows = record {
  id = env.fresh (map (λ o. o.id) rows);
  professional_profile_id = profile;
  property = property;
  rate = rate;
}

upsert-found :
    (env : Env) (property profile rate : ℕ) (rows : List RateOverride)
    → rate_of
        (find_override (upsert_override env property profile rate rows) property (some profile))
      ≡ some rate
unfolding upsert_override find_override is_override
upsert-found env property profile rate rows =
    elim (Bool-cases (exists (is_override property profile) rows)) [
      | inl t ↦ rw t (
          ap rate_of
            (find_first-update_self (is_override property profile) (λ o. record o { rate = rate })
              rows (λ o. refl) t).1)
      | inr f ↦ rw f (
          ap rate_of (
            find_first-create (is_override property profile)
              (new_override env property profile rate rows) rows)
          ∙ rw (find_first-none (is_override property profile) rows f)
              (rw (==_self profile, ==_self property) refl))
    ]

by_override :
    (o : Option RateOverride) (rate : ℕ) (r : Option ℕ) (rest : ResolvedRate)
    → rate_of o ≡ some rate
    → cascade o r rest ≡ record { rate = rate; source = RateSource.override }
by_override none rate r rest e = ground arith
by_override (some o) rate r rest e =
    ap (λ (x : Option ℕ). record { rate = x otherwise 0; source = RateSource.override }) e

reprice_flex-overrides :
    (env : Env) (b : Booking) (p : Option ℕ) (o : Option FlexBooking) (s : Db)
    → (recalculate_flex env b p o s).flex_overrides ≡ s.flex_overrides
reprice_flex-overrides env b none o s = refl
reprice_flex-overrides env b (some p) none s = refl
reprice_flex-overrides env b (some p) (some o) s = refl

recalculate-overrides :
    (env : Env) (bs : List Booking) (s : Db)
    → (recalculate_each (recalculate_booking_commission env) bs s).flex_overrides ≡ s.flex_overrides
unfolding recalculate_each recalculate_booking_commission
recalculate-overrides env [] s = refl
recalculate-overrides env (b ∷ bs) s =
    recalculate-overrides env bs (recalculate_booking_commission env b s)
    ∙ reprice_flex-overrides env b b.property_flex_id (flex_booking_of s b) s

-- Setting an agreement either throws and changes nothing, or leaves a database in which the rate of
-- the ambassador for the property is the one agreed, with the agreement as its source.
pub upsert_ambassador_override-resolves :
    (env : Env) (property profile rate : ℕ) (s : Db)
    → Post
        (λ s'. s' ≡ s)
        (λ _ s'.
          resolve_flex_rate_with_source s' property (some profile)
          ≡ record { rate = rate; source = RateSource.override })
        (upsert_ambassador_override env property profile rate s)
unfolding upsert_ambassador_override recalculate_for_override resolve_flex_rate_with_source ◌>>=◌
upsert_ambassador_override-resolves env property profile rate s =
    elim (Bool-cases (exists (live_flex property) s.property_flexes)) [
      | inr f ↦ rw f refl
      | inl t ↦ rw t (elim (Bool-cases (exists (λ p. p.id == profile) s.profiles)) [
        | inr f ↦ rw f refl
        | inl u ↦ rw u (
            by_override _ rate _ _ (
              ap (λ os. rate_of (find_override os property (some profile)))
                (recalculate-overrides env _ _)
              ∙ upsert-found env property profile rate s.flex_overrides))
      ])
    ]
