-- ===== src/Rates/Overrides.antt =====
-- The changes of a rate, each followed by its recalculation.
use deptoflex_back.Prelude.{
  Bool, List, create, delete_many, exists, find_first, if◌then◌else◌, is_none, map, not, some,
  update_many, ℕ, ◌&&◌, ◌==◌,
}
use deptoflex_back.Store.{
  Action, Env, Property, PropertyFlex, RateOverride, gets, modify, not_found, or_throw, throw_if,
  ◌>>=◌, ◌>>◌,
}
use deptoflex_back.Rates.Recalculate.{
  recalculate_for_override, recalculate_for_property_flex, recalculate_for_temporal_override,
  recalculate_for_temporal_property,
}

unfoldable pub live_flex : ℕ → PropertyFlex → Bool
live_flex id p = p.id == id && is_none p.deleted_at

unfoldable pub live_property : ℕ → Property → Bool
live_property id p = p.id == id && is_none p.deleted_at

-- `setPropertyFlexRate`
unfoldable pub set_property_flex_rate : Env → ℕ → ℕ → Action (Unit {0})
unfolding live_flex recalculate_for_property_flex
set_property_flex_rate env property_flex_id rate = do
  throw_if (not (← gets (λ s. exists (live_flex property_flex_id) s.property_flexes))) not_found
  modify λ s. record s {
    property_flexes =
        update_many (λ p. p.id == property_flex_id) (λ p. record p { commission_rate = some rate })
          s.property_flexes;
  }
  modify (recalculate_for_property_flex env property_flex_id)

-- `setPropertyTemporalRate`
unfoldable pub set_property_temporal_rate : Env → ℕ → ℕ → Action (Unit {0})
unfolding live_property recalculate_for_temporal_property
set_property_temporal_rate env property_id rate = do
  throw_if (not (← gets (λ s. exists (live_property property_id) s.properties))) not_found
  modify λ s. record s {
    properties =
        update_many (λ p. p.id == property_id) (λ p. record p { commission_rate = some rate })
          s.properties;
  }
  modify (recalculate_for_temporal_property env property_id)

-- The unique key (profile, property) of both tables of overrides.
unfoldable pub is_override : ℕ → ℕ → RateOverride → Bool
is_override property_id profile o =
    o.professional_profile_id == profile && o.property == property_id

-- `upsert({ where, create, update })`
unfoldable pub upsert_override : Env → ℕ → ℕ → ℕ → List RateOverride → List RateOverride
unfolding is_override
upsert_override env property_id profile rate rows =
    if exists (is_override property_id profile) rows
    then update_many (is_override property_id profile) (λ o. record o { rate = rate }) rows
    else create
        (record {
          id = env.fresh (map (λ o. o.id) rows);
          professional_profile_id = profile;
          property = property_id;
          rate = rate;
        })
        rows

-- `upsertAmbassadorOverride`
unfoldable pub upsert_ambassador_override : Env → ℕ → ℕ → ℕ → Action (Unit {0})
unfolding live_flex upsert_override recalculate_for_override
upsert_ambassador_override env property_flex_id profile rate = do
  throw_if (not (← gets (λ s. exists (live_flex property_flex_id) s.property_flexes))) not_found
  throw_if (not (← gets (λ s. exists (λ p. p.id == profile) s.profiles))) not_found
  modify λ s. record s {
    flex_overrides = upsert_override env property_flex_id profile rate s.flex_overrides;
  }
  modify (recalculate_for_override env property_flex_id profile)

-- `deleteAmbassadorOverride`: the row is found by its key and deleted by its id.
unfoldable pub delete_ambassador_override : Env → ℕ → ℕ → Action (Unit {0})
unfolding is_override recalculate_for_override
delete_ambassador_override env property_flex_id profile = do
  existing ← gets (λ s. find_first (is_override property_flex_id profile) s.flex_overrides)
  existing ← or_throw existing not_found
  modify λ s. record s { flex_overrides = delete_many (λ o. o.id == existing.id) s.flex_overrides }
  modify (recalculate_for_override env property_flex_id profile)

-- `upsertAmbassadorPropertyOverride`
unfoldable pub upsert_ambassador_property_override : Env → ℕ → ℕ → ℕ → Action (Unit {0})
unfolding live_property upsert_override recalculate_for_temporal_override
upsert_ambassador_property_override env property_id profile rate = do
  throw_if (not (← gets (λ s. exists (live_property property_id) s.properties))) not_found
  throw_if (not (← gets (λ s. exists (λ p. p.id == profile) s.profiles))) not_found
  modify λ s. record s {
    property_overrides = upsert_override env property_id profile rate s.property_overrides;
  }
  modify (recalculate_for_temporal_override env property_id profile)

-- `deleteAmbassadorPropertyOverride`
unfoldable pub delete_ambassador_property_override : Env → ℕ → ℕ → Action (Unit {0})
unfolding is_override recalculate_for_temporal_override
delete_ambassador_property_override env property_id profile = do
  existing ← gets (λ s. find_first (is_override property_id profile) s.property_overrides)
  existing ← or_throw existing not_found
  modify λ s. record s {
    property_overrides = delete_many (λ o. o.id == existing.id) s.property_overrides;
  }
  modify (recalculate_for_temporal_override env property_id profile)
