-- ===== src/Cloudbeds/Cache.antt =====
-- availability-cache.service.ts and availability-snapshots.service.ts.
use deptoflex_back.Prelude.{
  Bool, List, Option, [], create, delete_many, exists, find_first, find_many, if◌then◌else◌, leb,
  ltb, none, same_text, some, update_many, ℕ, ◌&&◌, ◌+◌, ◌==◌, ◌∷◌,
}
use deptoflex_back.Store.{AvailabilityResult, AvailabilitySnapshot, CacheEntry, CacheKey}
use mathlib.Core.Option

unfoldable pub same_key : CacheKey → CacheKey → Bool
same_key a b =
    a.property_id == b.property_id
    && a.checkin == b.checkin
    && a.checkout == b.checkout
    && same_text a.currency_code b.currency_code
    && same_text a.lang b.lang

unfoldable pub cache_entry : CacheKey → List CacheEntry → Option CacheEntry
unfolding same_key
cache_entry key cache = find_first (λ e. same_key e.key key) cache

abbrev fresh_value : ℕ → Option CacheEntry → Option AvailabilityResult
fresh_value now none = none
fresh_value now (some e) = if ltb e.expires_at now then none else some e.value

-- `get`
unfoldable pub cache_get : ℕ → CacheKey → List CacheEntry → Option AvailabilityResult
unfolding cache_entry
cache_get now key cache = fresh_value now (cache_entry key cache)

-- `invalidate`
unfoldable pub cache_delete : CacheKey → List CacheEntry → List CacheEntry
unfolding same_key
cache_delete key cache = delete_many (λ e. same_key e.key key) cache

abbrev pub max_stale_ms : ℕ
max_stale_ms = 86400000

abbrev stale_value :
    ℕ → CacheKey → List CacheEntry → Option CacheEntry → Option AvailabilityResult × List CacheEntry
stale_value now key cache none = (none, cache)
stale_value now key cache (some e) =
    if ltb (e.expires_at + max_stale_ms) now
    then (none, cache_delete key cache)
    else (some e.value, cache)

-- `getStale`, which forgets an entry that is too old
unfoldable pub get_stale :
    ℕ → CacheKey → List CacheEntry → Option AvailabilityResult × List CacheEntry
unfolding cache_entry cache_delete
get_stale now key cache = stale_value now key cache (cache_entry key cache)

-- `set`: the value of a key that is there is replaced.
unfoldable pub cache_set : ℕ → ℕ → CacheKey → AvailabilityResult → List CacheEntry → List CacheEntry
unfolding same_key
cache_set now ttl key value cache =
    if exists (λ e. same_key e.key key) cache
    then update_many (λ e. same_key e.key key)
        (λ e. record e { value = value; expires_at = now + ttl }) cache
    else create (record { key = key; value = value; expires_at = now + ttl }) cache

-- `prune`
unfoldable pub cache_prune : ℕ → List CacheEntry → List CacheEntry
cache_prune now cache = delete_many (λ e. ltb e.expires_at now) cache

-- The later of two snapshots, for `orderBy: { createdAt: 'desc' }`
abbrev later_snapshot : AvailabilitySnapshot → Option AvailabilitySnapshot → AvailabilitySnapshot
later_snapshot x none = x
later_snapshot x (some y) = if ltb x.created_at y.created_at then y else x

unfoldable pub latest_snapshot : List AvailabilitySnapshot → Option AvailabilitySnapshot
latest_snapshot [] = none
latest_snapshot (x ∷ xs) = some (later_snapshot x (latest_snapshot xs))

-- `findLatestForSearch`: of the last day, from an answer with the status 200
unfoldable pub find_latest_for_search :
    ℕ → CacheKey → List AvailabilitySnapshot → Option AvailabilityResult
unfolding same_key latest_snapshot
find_latest_for_search now key rows =
    Option.map (λ x. x.result)
      (latest_snapshot (
        find_many
          (λ x.
            same_key x.key key && leb now (x.created_at + 86400000) && x.result.http_status == 200)
          rows))

-- `record`
unfoldable pub record_snapshot :
    ℕ → CacheKey → AvailabilityResult → List AvailabilitySnapshot → List AvailabilitySnapshot
record_snapshot now key result rows =
    create (record { key = key; result = result; created_at = now }) rows
