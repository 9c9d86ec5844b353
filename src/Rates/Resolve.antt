-- ===== src/Rates/Resolve.antt =====
-- The cascade that finds a rate: the ambassador's override, the property, the ambassador's default.
-- The services read it and write nothing.
use mathlib.Core.Option
use deptoflex_back.Prelude.{
  List, Option, find_first, if◌then◌else◌, is_none, none, some, ℕ, ◌&&◌, ◌*◌, ◌==◌,
}
use deptoflex_back.Store.{Db, Env, ProfessionalProfile, RateOverride}

-- `CommissionRateSource`
pub data RateSource : Type 0 where
  override property ambassador_default zero_rate : RateSource

pub record ResolvedRate : Type 0 where
  pub rate : ℕ
  pub source : RateSource

-- The `findUnique` of an override, made only for a known professional profile.
unfoldable pub find_override : List RateOverride → ℕ → Option ℕ → Option RateOverride
find_override rows property_id none = none
find_override rows property_id (some profile) =
    find_first (λ o. o.professional_profile_id == profile && o.property == property_id) rows

abbrev pub default_of_profile : Option ProfessionalProfile → ResolvedRate
default_of_profile none = record { rate = 0; source = zero_rate }
default_of_profile (some p) =
    if p.default_commission_rate == 0
    then record { rate = 0; source = zero_rate }
    else record { rate = p.default_commission_rate; source = ambassador_default }

-- The last two steps: a default rate that is not zero, or zero.
unfoldable pub default_rate : Db → Option ℕ → ResolvedRate
default_rate s none = record { rate = 0; source = zero_rate }
default_rate s (some profile) = default_of_profile (find_first (λ p. p.id == profile) s.profiles)

abbrev pub cascade : Option RateOverride → Option ℕ → ResolvedRate → ResolvedRate
cascade (some o) property_rate rest = record { rate = o.rate; source = override }
cascade none (some r) rest = record { rate = r; source = property }
cascade none none rest = rest

-- `property?.commissionRate` for a flex property: deleted ones are found too.
unfoldable pub flex_property_rate : Db → ℕ → Option ℕ
flex_property_rate s property_flex_id =
    Option.bind (find_first (λ p. p.id == property_flex_id) s.property_flexes)
      (λ p. p.commission_rate)

-- `resolveFlexRateWithSource`
unfoldable pub resolve_flex_rate_with_source : Db → ℕ → Option ℕ → ResolvedRate
unfolding find_override default_rate flex_property_rate
resolve_flex_rate_with_source s property_flex_id profile =
    cascade (find_override s.flex_overrides property_flex_id profile)
      (flex_property_rate s property_flex_id) (default_rate s profile)

-- `resolveFlexRate`
unfoldable pub resolve_flex_rate : Db → ℕ → Option ℕ → ℕ
unfolding resolve_flex_rate_with_source
resolve_flex_rate s property_flex_id profile =
    (resolve_flex_rate_with_source s property_flex_id profile).rate

-- `property?.commissionRate` for a temporal property, which must not be deleted.
unfoldable pub temporal_property_rate : Db → ℕ → Option ℕ
temporal_property_rate s property_id =
    Option.bind (find_first (λ p. p.id == property_id && is_none p.deleted_at) s.properties)
      (λ p. p.commission_rate)

-- `resolveTemporalRateWithSource`
unfoldable pub resolve_temporal_rate_with_source : Db → ℕ → Option ℕ → ResolvedRate
unfolding find_override default_rate temporal_property_rate
resolve_temporal_rate_with_source s property_id profile =
    cascade (find_override s.property_overrides property_id profile)
      (temporal_property_rate s property_id) (default_rate s profile)

-- `resolveTemporalRate`
unfoldable pub resolve_temporal_rate : Db → ℕ → Option ℕ → ℕ
unfolding resolve_temporal_rate_with_source
resolve_temporal_rate s property_id profile =
    (resolve_temporal_rate_with_source s property_id profile).rate

-- `flexCommissionAmount`, and the same product for a temporal booking: `amount * rate / 100`, as
-- the column keeps it. The product of cents and hundredths of a percent is in millionths.
unfoldable pub commission_amount : Env → ℕ → ℕ → ℕ
commission_amount env amount rate = env.to_cents (amount * rate)
