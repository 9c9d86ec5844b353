-- ===== src/Cloudbeds/Searches.antt =====
-- What a search of `CloudbedsService` changes: the cache and the snapshots, and nothing else.
use deptoflex_back.Cloudbeds.Cache.{find_latest_for_search, get_stale}
use deptoflex_back.Cloudbeds.Provider.{BookingProvider, CloudbedsConfig}
use deptoflex_back.Cloudbeds.Search.{
  SearchAvailability, answer_without_engine, ask_engine, assert_dates_valid,
  build_enriched_response, mapped_property, search_availability, search_rooms_of,
}
use deptoflex_back.Prelude.{
  Bool-cases, Option, Option-cases, inl, inr, leb, ltb, none, refl, some, ◌*◌, ◌/◌, ◌≡◌,
}
use deptoflex_back.Store.{AvailabilityResult, CacheKey, Db, Env, Property, ◌>>=◌}

-- What a search leaves alone
pub record SameBookings (s s' : Db) : Type 0 where
  pub bookings : s'.bookings ≡ s.bookings
  pub history : s'.status_history ≡ s.status_history
  pub intents : s'.reservation_intents ≡ s.reservation_intents

module _ (env : Env) (p : Property) (k l : CacheKey) where
  answer_without_engine-same : (s : Db) → SameBookings s (answer_without_engine env p k l s).1
  unfolding answer_without_engine build_enriched_response ◌>>=◌
  answer_without_engine-same s =
      let stale = get_stale env.now k s.availability_cache in
      elim (Option-cases stale.0) [
        | inl n ↦ elim (Option-cases (find_latest_for_search env.now l s.availability_snapshots)) [
          | inl m ↦ rw (n, m) (record { bookings = refl; history = refl; intents = refl })
          | inr (x, m) ↦ rw (n, m) (record { bookings = refl; history = refl; intents = refl })
        ]
        | inr (x, m) ↦ rw m (record { bookings = refl; history = refl; intents = refl })
      ]

  ask_engine-same :
      (cfg : CloudbedsConfig) (o : Option AvailabilityResult) (s : Db)
      → SameBookings s (ask_engine env cfg p k l o s).1
  unfolding ask_engine build_enriched_response ◌>>=◌
  ask_engine-same cfg none s = answer_without_engine-same s
  ask_engine-same cfg (some r) s = record { bookings = refl; history = refl; intents = refl }

search_rooms_of-same :
    (env : Env) (cfg : CloudbedsConfig) (engine : BookingProvider) (dto : SearchAvailability)
    (p : Property) (o : Option AvailabilityResult) (s : Db)
    → SameBookings s (search_rooms_of env cfg engine dto p o s).1
unfolding search_rooms_of build_enriched_response ◌>>=◌
search_rooms_of-same env cfg engine dto p none s = ask_engine-same env p _ _ cfg _ s
search_rooms_of-same env cfg engine dto p (some r) s = record {
  bookings = refl;
  history = refl;
  intents = refl;
}

pub search_availability-same :
    (env : Env) (cfg : CloudbedsConfig) (engine : BookingProvider) (dto : SearchAvailability)
    (s : Db)
    → SameBookings s (search_availability env cfg engine dto s).1
unfolding search_availability assert_dates_valid ◌>>=◌
search_availability-same env cfg engine dto s = elim (Bool-cases (leb dto.checkout dto.checkin)) [
  | inl t ↦ rw t (record { bookings = refl; history = refl; intents = refl })
  | inr f ↦ elim (Bool-cases (ltb dto.checkin (env.now / 86400000 * 86400000))) [
    | inl t ↦ rw (f, t) (record { bookings = refl; history = refl; intents = refl })
    | inr g ↦ elim (Option-cases (mapped_property dto.property_id s)) [
      | inl n ↦ rw (f, g, n) (record { bookings = refl; history = refl; intents = refl })
      | inr (p, m) ↦ rw (f, g, m) (search_rooms_of-same env cfg engine dto p _ s)
    ]
  ]
]
