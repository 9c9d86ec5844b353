-- ===== src/Cloudbeds/Cached.antt =====
-- `CloudbedsService.searchAvailability` after an answer of the booking engine: the cache of
-- availability-cache.service.ts serves it while it is fresh, and while the engine is down.
use deptoflex_back.Cloudbeds.Cache.{
  cache_entry, cache_get, cache_set, get_stale, max_stale_ms, record_snapshot, same_key,
}
use deptoflex_back.Payments.{later}
use deptoflex_back.Prelude.{
  ==_self, Bool, Bool-cases, List, arith, exists, false, inl, inr, leb, ltb, none, refl,
  same_text_self, some, true, ℕ, ◌*◌, ◌+◌, ◌/◌, ◌<◌, ◌≡◌, ◌≤◌,
}
use deptoflex_back.Prelude.Table.Answers.{find_first-update_self}
use deptoflex_back.Prelude.Table.Laws.{find_first-absent, find_first-create}
use deptoflex_back.Store.{AvailabilityResult, CacheEntry, CacheKey, Db, Env, Property, ok, ◌>>=◌}
use deptoflex_back.Cloudbeds.Provider.{BookingProvider, CloudbedsConfig}
use deptoflex_back.Cloudbeds.Search.{
  EnrichedAvailability, SearchAvailability, answer_without_engine, ask_engine, ask_of,
  assert_dates_valid, build_enriched_response, enrich_with_local_units, key_of, mapped_property,
  search_availability, search_rooms_of,
}

same_key_self : (k : CacheKey) → same_key k k ≡ true
unfolding same_key
same_key_self k = ground (
  arith,
  ==_self k.property_id,
  ==_self k.checkin,
  ==_self k.checkout,
  same_text_self k.currency_code,
  same_text_self k.lang,
)

-- What is set is found, with its time.
cache_entry-cache_set :
    (now ttl : ℕ) (key : CacheKey) (value : AvailabilityResult) (cache : List CacheEntry)
    → (e : CacheEntry) × (cache_entry key (cache_set now ttl key value cache) ≡ some e)
      × (e.value ≡ value)
      × (e.expires_at ≡ now + ttl)
unfolding cache_entry cache_set
cache_entry-cache_set now ttl key value cache =
    elim (Bool-cases (exists (λ e. same_key e.key key) cache)) [
      | inl t ↦
          let found =
            find_first-update_self (λ e. same_key e.key key)
              (λ e. record e { value = value; expires_at = now + ttl }) cache (λ e. refl) t in
          rw t ((record found.0 { value = value; expires_at = now + ttl }), found.1, refl, refl)
      | inr f ↦
          rw
            (
              f,
              find_first-create (λ (e : CacheEntry). same_key e.key key)
                  (record { key = key; value = value; expires_at = now + ttl }) cache,
              find_first-absent (λ (e : CacheEntry). same_key e.key key) cache f,
              same_key_self key,
            )
            ((record { key = key; value = value; expires_at = now + ttl }), refl, refl, refl)
    ]

-- While it is fresh, `get` answers it; after that and for a day, only `getStale` does.
cache_get-cache_set :
    (now ttl later : ℕ) (key : CacheKey) (value : AvailabilityResult) (cache : List CacheEntry)
    → later ≤ now + ttl
    → cache_get later key (cache_set now ttl key value cache) ≡ some value
unfolding cache_get
cache_get-cache_set now ttl later key value cache l =
    let (e, found, v, x) = cache_entry-cache_set now ttl key value cache in
    rw (found, v) (ground (arith, l, x))

cache_get-expired :
    (now ttl later : ℕ) (key : CacheKey) (value : AvailabilityResult) (cache : List CacheEntry)
    → now + ttl < later
    → cache_get later key (cache_set now ttl key value cache) ≡ none
unfolding cache_get
cache_get-expired now ttl later key value cache l =
    let (e, found, v, x) = cache_entry-cache_set now ttl key value cache in
    rw found (ground (arith, l, x))

get_stale-cache_set :
    (now ttl later : ℕ) (key : CacheKey) (value : AvailabilityResult) (cache : List CacheEntry)
    → later ≤ now + ttl + max_stale_ms
    → let set = cache_set now ttl key value cache in get_stale later key set ≡ (some value, set)
unfolding get_stale
get_stale-cache_set now ttl later key value cache l =
    let (e, found, v, x) = cache_entry-cache_set now ttl key value cache in
    let young : ltb (e.expires_at + max_stale_ms) later ≡ false = ground (arith, l, x) in
    rw (found, v, young) refl

module _ (env : Env) (cfg : CloudbedsConfig) (dto : SearchAvailability) (p : Property)
    (result : AvailabilityResult) (s : Db) where
  abbrev key : CacheKey
  key = key_of dto.property_id dto

  -- The answer, with the marks of where it comes from
  abbrev pub found_rooms : Bool → Bool → EnrichedAvailability
  found_rooms from_cache stale = record {
    property_id = p.id;
    property_external_id = result.property_external_id;
    total_available = result.total_available;
    rooms = enrich_with_local_units p.id result.rooms s.units;
    from_cache = from_cache;
    from_snapshot = false;
    stale = stale;
  }

  abbrev asked : Db
  asked = record s {
    availability_cache = cache_set env.now cfg.cache_ttl_ms key result s.availability_cache;
    availability_snapshots =
        record_snapshot env.now (key_of p.id dto) result s.availability_snapshots;
  }

  search-asks :
      (engine : BookingProvider)
      → dto.checkin < dto.checkout
      → env.now / 86400000 * 86400000 ≤ dto.checkin
      → mapped_property dto.property_id s ≡ some p
      → cache_get env.now key s.availability_cache ≡ none
      → engine.search_rooms (ask_of dto) ≡ some result
      → search_availability env cfg engine dto s ≡ (ok (found_rooms false false), asked)
  unfolding search_availability assert_dates_valid search_rooms_of ask_engine
      build_enriched_response ◌>>=◌
  search-asks engine d m f c e =
      let ordered : leb dto.checkout dto.checkin ≡ false = ground (arith, d) in
      let coming : ltb dto.checkin (env.now / 86400000 * 86400000) ≡ false = ground (arith, m) in
      rw (ordered, coming, f, c, e) refl

  search-cached :
      (env' : Env) (cfg' : CloudbedsConfig) (engine : BookingProvider)
      → dto.checkin < dto.checkout
      → env'.now / 86400000 * 86400000 ≤ dto.checkin
      → mapped_property dto.property_id s ≡ some p
      → env'.now ≤ env.now + cfg.cache_ttl_ms
      → search_availability env' cfg' engine dto asked ≡ (ok (found_rooms true false), asked)
  unfolding search_availability assert_dates_valid search_rooms_of build_enriched_response ◌>>=◌
  search-cached env' cfg' engine d m f l =
      let ordered : leb dto.checkout dto.checkin ≡ false = ground (arith, d) in
      let coming : ltb dto.checkin (env'.now / 86400000 * 86400000) ≡ false = ground (arith, m) in
      rw
        (
          ordered,
          coming,
          f,
          cache_get-cache_set env.now cfg.cache_ttl_ms env'.now key result s.availability_cache l,
        )
        refl

  search-stale :
      (env' : Env) (cfg' : CloudbedsConfig) (engine : BookingProvider)
      → dto.checkin < dto.checkout
      → env'.now / 86400000 * 86400000 ≤ dto.checkin
      → mapped_property dto.property_id s ≡ some p
      → env.now + cfg.cache_ttl_ms < env'.now
      → env'.now ≤ env.now + cfg.cache_ttl_ms + max_stale_ms
      → engine.search_rooms (ask_of dto) ≡ none
      → search_availability env' cfg' engine dto asked ≡ (ok (found_rooms true true), asked)
  unfolding search_availability assert_dates_valid search_rooms_of ask_engine answer_without_engine
      build_enriched_response ◌>>=◌
  search-stale env' cfg' engine d m f o l e =
      let ordered : leb dto.checkout dto.checkin ≡ false = ground (arith, d) in
      let coming : ltb dto.checkin (env'.now / 86400000 * 86400000) ≡ false = ground (arith, m) in
      rw
        (
          ordered,
          coming,
          f,
          cache_get-expired env.now cfg.cache_ttl_ms env'.now key result s.availability_cache o,
          e,
          get_stale-cache_set env.now cfg.cache_ttl_ms env'.now key result s.availability_cache l,
        )
        refl

-- A search for coming dates in order, of a property with the external id, that the cache does not
-- answer and the booking engine does, gives the engine's rooms. The same search before the entry's
-- time has passed gives the same rooms whatever the engine would answer; and for a day after that
-- it gives them, marked as stale, where the engine fails. Neither of the two changes the database.
pub search_availability-survives :
    (env soon late : Env) (cfg : CloudbedsConfig) (engine other down : BookingProvider)
    (dto : SearchAvailability) (p : Property) (result : AvailabilityResult) (s : Db)
    → dto.checkin < dto.checkout
    → env.now / 86400000 * 86400000 ≤ dto.checkin
    → soon.now / 86400000 * 86400000 ≤ dto.checkin
    → late.now / 86400000 * 86400000 ≤ dto.checkin
    → mapped_property dto.property_id s ≡ some p
    → cache_get env.now (key_of dto.property_id dto) s.availability_cache ≡ none
    → engine.search_rooms (ask_of dto) ≡ some result
    → down.search_rooms (ask_of dto) ≡ none
    → soon.now ≤ env.now + cfg.cache_ttl_ms
    → env.now + cfg.cache_ttl_ms < late.now
    → late.now ≤ env.now + cfg.cache_ttl_ms + max_stale_ms
    → let r = search_availability env cfg engine dto s in
      let found = found_rooms env cfg dto p result s in
      (r.0 ≡ ok (found false false))
      × (search_availability soon cfg other dto r.1 ≡ (ok (found true false), r.1))
      × (search_availability late cfg down dto r.1 ≡ (ok (found true true), r.1))
search_availability-survives env soon late cfg engine other down dto p result s d m n o f c e x a b
      w =
    rw (search-asks env cfg dto p result s engine d m f c e) (
      refl,
      search-cached env cfg dto p result s soon cfg other d n f a,
      search-stale env cfg dto p result s late cfg down d o f b w x,
    )
