-- ===== src/Cloudbeds/Search.antt =====
-- `CloudbedsService.searchAvailability`, of cloudbeds.service.ts.
use deptoflex_back.Cloudbeds.Cache.{
  cache_get, cache_set, find_latest_for_search, get_stale, record_snapshot,
}
use deptoflex_back.Cloudbeds.Provider.{BookingProvider, CloudbedsConfig, SearchInput}
use deptoflex_back.Prelude.{
  Bool, List, Option, String, [], create, false, find_first, find_many, if◌then◌else◌, includes,
  is_none, leb, ltb, map, none, some, to_lower_case, to_upper_case, true, ℕ, ◌&&◌, ◌*◌, ◌/◌, ◌==?◌,
  ◌==◌, ◌otherwise◌, ◌∷◌,
}
use deptoflex_back.Store.{
  Action, AvailabilityResult, AvailableRoom, CacheKey, Db, Env, Property, RentalUnit, bad_request,
  gets, modify, not_found, or_throw, throw, throw_if, unavailable, ◌>>=◌, ◌>>◌,
}

-- `SearchAvailabilityDto`, its dates parsed; `property_id` is the external one.
pub record SearchAvailability : Type 0 where
  pub property_id : ℕ
  pub checkin : ℕ
  pub checkout : ℕ
  pub currency_code : Option String
  pub lang : Option String
  pub adults : Option ℕ
  pub children : Option ℕ

-- A room with the ids of the local units of its type
pub record EnrichedRoom : Type 0 where
  pub room : AvailableRoom
  pub local_units : List ℕ

-- `EnrichedAvailabilityResult`, with the marks of `meta`
pub record EnrichedAvailability : Type 0 where
  pub property_id : ℕ
  pub property_external_id : ℕ
  pub total_available : ℕ
  pub rooms : List EnrichedRoom
  pub from_cache : Bool
  pub from_snapshot : Bool
  pub stale : Bool

-- `byRoomType`: a map from room types to units
abbrev pub UnitsByType : Type 0
UnitsByType = List (ℕ × List RentalUnit)

-- `list.push(u); byRoomType.set(…)`
unfoldable pub push_unit : ℕ → RentalUnit → UnitsByType → UnitsByType
push_unit type u [] = (type, u ∷ []) ∷ []
push_unit type u ((t, us) ∷ groups) =
    let rest = push_unit type u groups in
    if t == type then (t, create u us) ∷ groups else (t, us) ∷ rest

-- `if (!u.cloudbedsRoomTypeId) continue;`
unfoldable pub push_typed : Option ℕ → RentalUnit → UnitsByType → UnitsByType
unfolding push_unit
push_typed none u groups = groups
push_typed (some type) u groups = push_unit type u groups

-- The loop over `localUnits`
unfoldable pub group_units : List RentalUnit → UnitsByType → UnitsByType
unfolding push_typed
group_units [] groups = groups
group_units (u ∷ us) groups = group_units us (push_typed u.cloudbeds_room_type_id u groups)

-- `byRoomType.get(r.roomTypeId) ?? []`
unfoldable pub units_of : ℕ → UnitsByType → List RentalUnit
units_of type [] = []
units_of type ((t, us) ∷ groups) = let rest = units_of type groups in if t == type then us else rest

abbrev pub in_types : List ℕ → Option ℕ → Bool
in_types types none = false
in_types types (some type) = includes types type

-- `enrichWithLocalUnits`
unfoldable pub enrich_with_local_units :
    ℕ → List AvailableRoom → List RentalUnit → List EnrichedRoom
unfolding group_units units_of
enrich_with_local_units property rooms units =
    let reservable = find_many (λ r. ltb 0 r.remaining) rooms in
    let types = map (λ r. r.room_type_id) reservable in
    let local =
      find_many
        (λ u.
          u.property_id == property
          && is_none u.deleted_at
          && in_types types u.cloudbeds_room_type_id)
        units in
    let groups = group_units local [] in
    map (λ r. record { room = r; local_units = map (λ u. u.id) (units_of r.room_type_id groups) })
      reservable

-- `buildEnrichedResponse`
unfoldable pub build_enriched_response :
    Property → AvailabilityResult → Bool → Bool → Bool → Action EnrichedAvailability
unfolding enrich_with_local_units
build_enriched_response p result from_cache from_snapshot stale = gets λ s. record {
  property_id = p.id;
  property_external_id = result.property_external_id;
  total_available = result.total_available;
  rooms = enrich_with_local_units p.id result.rooms s.units;
  from_cache = from_cache;
  from_snapshot = from_snapshot;
  stale = stale;
}

-- `assertDatesValid`, of dates that are parsed: today starts at the last midnight.
unfoldable pub assert_dates_valid : Env → ℕ → ℕ → Action (Unit {0})
assert_dates_valid env checkin checkout = do
  throw_if (leb checkout checkin) bad_request
  throw_if (ltb checkin (env.now / 86400000 * 86400000)) bad_request

abbrev pub key_of : ℕ → SearchAvailability → CacheKey
key_of property dto = record {
  property_id = property;
  checkin = dto.checkin;
  checkout = dto.checkout;
  currency_code = to_upper_case (dto.currency_code otherwise "ARS");
  lang = to_lower_case (dto.lang otherwise "es");
}

-- The `catch` of the engine's call: an answer that is not too old, a snapshot, or an exception
unfoldable pub answer_without_engine :
    Env → Property → CacheKey → CacheKey → Action EnrichedAvailability
unfolding get_stale find_latest_for_search build_enriched_response
answer_without_engine env p cache_key local_key = do
  stale ← gets (λ s. get_stale env.now cache_key s.availability_cache)
  modify λ s. record s { availability_cache = stale.1 }
  snapshot ← gets (λ s. find_latest_for_search env.now local_key s.availability_snapshots)
  elim stale.0 [
    | some result ↦ build_enriched_response p result true false true
    | none ↦ elim snapshot [
      | some result ↦ build_enriched_response p result false true true
      | none ↦ throw unavailable
    ]
  ]

-- The `try`, with what follows it where it succeeds
unfoldable pub ask_engine :
    Env
    → CloudbedsConfig
    → Property
    → CacheKey
    → CacheKey
    → Option AvailabilityResult
    → Action EnrichedAvailability
unfolding answer_without_engine cache_set record_snapshot build_enriched_response
ask_engine env cfg p cache_key local_key none = answer_without_engine env p cache_key local_key
ask_engine env cfg p cache_key local_key (some result) = do
  modify λ s. record s {
    availability_cache = cache_set env.now cfg.cache_ttl_ms cache_key result s.availability_cache;
  }
  modify λ s. record s {
    availability_snapshots = record_snapshot env.now local_key result s.availability_snapshots;
  }
  build_enriched_response p result false false false

-- The input of the engine's call
abbrev pub ask_of : SearchAvailability → SearchInput
ask_of dto = record {
  key = key_of dto.property_id dto;
  adults = dto.adults;
  children = dto.children;
}

-- What is done with the cache's answer
unfoldable pub search_rooms_of :
    Env
    → CloudbedsConfig
    → BookingProvider
    → SearchAvailability
    → Property
    → Option AvailabilityResult
    → Action EnrichedAvailability
unfolding ask_engine build_enriched_response
search_rooms_of env cfg engine dto p (some cached) =
    build_enriched_response p cached true false false
search_rooms_of env cfg engine dto p none =
    ask_engine env cfg p (key_of dto.property_id dto) (key_of p.id dto)
      (engine.search_rooms (ask_of dto))

-- The property of an external id, which the query finds by it
abbrev pub mapped_property : ℕ → Db → Option Property
mapped_property external s =
    find_first (λ p. p.cloudbeds_widget_property_id ==? external && is_none p.deleted_at)
      s.properties

-- `searchAvailability`
unfoldable pub search_availability :
    Env → CloudbedsConfig → BookingProvider → SearchAvailability → Action EnrichedAvailability
unfolding assert_dates_valid cache_get search_rooms_of to_upper_case to_lower_case
search_availability env cfg engine dto = do
  assert_dates_valid env dto.checkin dto.checkout
  property ← gets (mapped_property dto.property_id)
  property ← or_throw property not_found
  cached ← gets (λ s. cache_get env.now (key_of dto.property_id dto) s.availability_cache)
  search_rooms_of env cfg engine dto property cached
