-- ===== src/FlexAvailability.antt =====
-- src/modules/property-flex/flex-availability.util.ts: the first day from which a flex property is
-- free for a stay. A date without a time is the number of its day in the local calendar; the months
-- of `Date` are a parameter.
use deptoflex_back.Prelude.{
  Bool, Bool-cases, List, Option, arith, exists, false, if◌then◌else◌, inl, inr, ltb, none, not,
  refl, some, suc, true, zero, ℕ, ◌&&◌, ◌+◌, ◌-◌, ◌<◌, ◌≡◌, ◌≤◌,
}
use deptoflex_back.Auth.{day}

-- `FlexBookedPeriodLike`
pub record BookedPeriod : Type 0 where
  pub start_date : ℕ
  pub end_date : ℕ

-- The day some months after a day, as `new Date(y, m - 1 + months, d)` and `setMonth` compute it
abbrev pub Calendar : Type 0
Calendar = ℕ → ℕ → ℕ

-- `rangesOverlap`
unfoldable pub ranges_overlap : ℕ → ℕ → BookedPeriod → Bool
ranges_overlap start end p = ltb start p.end_date && ltb p.start_date end

-- `isRangeAvailable`
unfoldable pub is_range_available : ℕ → ℕ → List BookedPeriod → Bool
unfolding ranges_overlap
is_range_available start end periods = not (exists (ranges_overlap start end) periods)

module _ (add_months : Calendar) (periods : List BookedPeriod) (stay_months : ℕ) where
  -- The stay that starts on the day meets no booked period.
  abbrev pub is_free : ℕ → Bool
  is_free day = is_range_available day (add_months day stay_months) periods

  -- The loop, on fuel; `none` where the fuel is spent before the loop ends.
  unfoldable pub search_from : ℕ → ℕ → ℕ → Option (Option ℕ)
  search_from search_end zero cursor = if ltb cursor search_end then none else some none
  search_from search_end (suc fuel) cursor =
      let rest = search_from search_end fuel (suc cursor) in
      if ltb cursor search_end
      then (if is_free cursor then some (some cursor) else rest)
      else some none

  -- `findNextAvailableStart`
  unfoldable pub find_next_available_start : ℕ → ℕ → ℕ → Option (Option ℕ)
  unfolding search_from
  find_next_available_start fuel today search_horizon_months =
      search_from (add_months today search_horizon_months) fuel today

  -- The days before another, from a day on, none of which is free
  unfoldable pub no_day_free : ℕ → ℕ → Bool
  no_day_free zero start = true
  no_day_free (suc n) start = not (is_free start) && no_day_free n (suc start)

  -- The answer is the first free day of those from `today` to before `end`, if there is one.
  unfoldable pub IsFirstFree : ℕ → ℕ → Option ℕ → Type 0
  unfolding no_day_free
  IsFirstFree today end none = no_day_free (end - today) today ≡ true
  IsFirstFree today end (some day) =
      (today ≤ day) × (day < end) × (is_free day ≡ true) × (no_day_free (day - today) today ≡ true)

  -- The loop has ended, and with such an answer.
  unfoldable pub EndsWith : ℕ → ℕ → Option (Option ℕ) → Type 0
  unfolding IsFirstFree
  EndsWith today end none = ⊥
  EndsWith today end (some answer) = IsFirstFree today end answer

  next_day :
      (today end : ℕ) (r : Option (Option ℕ))
      → today < end
      → is_free today ≡ false
      → EndsWith (suc today) end r
      → EndsWith today end r
  unfolding EndsWith IsFirstFree no_day_free
  next_day today end none l f h = absurd h
  next_day today end (some none) l f h =
      let step : (end - today) ≡ suc (end - suc today) = omega (arith, l) in rw (step, f, h) refl
  next_day today end (some (some day)) l f h =
      let step : (day - today) ≡ suc (day - suc today) = omega (arith, h.0) in
      (omega (arith, h.0), h.1, h.2, rw (step, f, h.3) refl)

  past_end :
      (b : Bool) (today end : ℕ) (r : Option (Option ℕ))
      → b ≡ false
      → end ≤ today
      → EndsWith today end (if b then r else some none)
  unfolding EndsWith IsFirstFree no_day_free
  past_end true today end r e l = absurd (ground (arith, e))
  past_end false today end r e l =
      let nothing_left : (end - today) ≡ 0 = omega (arith, l) in rw nothing_left refl

  before_end :
      (b : Bool) (today end : ℕ) (r : Option (Option ℕ))
      → b ≡ true
      → EndsWith today end r
      → EndsWith today end (if b then r else some none)
  before_end true today end r e h = h
  before_end false today end r e h = absurd (ground (arith, e))

  this_day :
      (today end : ℕ) (r : Option (Option ℕ))
      → today < end
      → EndsWith (suc today) end r
      → EndsWith today end (if is_free today then some (some today) else r)
  unfolding EndsWith IsFirstFree no_day_free
  this_day today end r l h = elim (Bool-cases (is_free today)) [
    | inl f ↦
        let none_before : (today - today) ≡ 0 = omega arith in
        rw f (omega arith, l, f, rw none_before refl)
    | inr f ↦ rw f (next_day today end r l f h)
  ]

  search_from-ends :
      (end fuel today : ℕ) → (end ≤ today + fuel) → EndsWith today end (search_from end fuel today)
  unfolding search_from
  search_from-ends end zero today e =
      past_end (ltb today end) today end none (ground arith) (omega (arith, e))
  search_from-ends end (suc fuel) today e =
      let rest = search_from end fuel (suc today) in
      let found = if is_free today then some (some today) else rest in
      elim (Bool-cases (ltb today end)) [
        | inl l ↦ before_end (ltb today end) today end found l (
            this_day today end rest (ground (arith, l))
              (search_from-ends end fuel (suc today) (omega (arith, e))))
        | inr n ↦ past_end (ltb today end) today end found n (ground (arith, n))
      ]

  -- With fuel for each day of the horizon the search ends: its answer is the first day of the horizon
  -- whose stay meets no booked period, or there is no such day and it answers none.
  pub find_next_available_start-ends :
      (fuel today search_horizon_months : ℕ)
      → add_months today search_horizon_months ≤ today + fuel
      → EndsWith today
          (add_months today search_horizon_months)
          (find_next_available_start fuel today search_horizon_months)
  unfolding find_next_available_start
  find_next_available_start-ends fuel today search_horizon_months e =
      search_from-ends (add_months today search_horizon_months) fuel today e
