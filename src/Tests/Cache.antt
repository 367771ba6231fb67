-- ===== src/Tests/Cache.antt =====
-- The query cache on small runs (src/services/graph-service-cache.ts).
use personal_knowledge_mcp.Base.{
  [], arith, drop, false, filter_by, length, refl, some, true, ℕ, ℕ_discrete, ◌+◌, ◌-◌, ◌<◌, ◌∷◌,
  ◌≡◌, ◌≢◌,
}
use personal_knowledge_mcp.JsMap.Defs.{delete, get, has, set}
use personal_knowledge_mcp.QueryCache.Bounds.{evict-cache, is_fresh}
use personal_knowledge_mcp.QueryCache.Cache.{
  QueryCache, add_to_index, cache_get, cache_set, clear_by_prefix, contains, delete_keys,
  drop_entries, drop_entry, evict, evict_oldest, first_key, new_cache,
}
use personal_knowledge_mcp.QueryCache.Entries.{
  IsConsistent, new_cache-IsConsistent, operate, operate-IsConsistent, setting,
}
use personal_knowledge_mcp.QueryCache.Index.{indexed}
use personal_knowledge_mcp.QueryCache.Keys.{Key, Key-discrete, extract_prefix}
use personal_knowledge_mcp.QueryCache.Prefix.{clear_by_prefix-stale}
use personal_knowledge_mcp.QueryCache.Reads.{lookup_at, lookup_at-cache_set_self}

program : Unit {0}
unfolding operate new_cache cache_set cache_get get set has delete Key-discrete contains evict
    evict_oldest drop_entries drop_entry first_key ℕ_discrete
program = tt

abbrev no_keys : QueryCache ℕ
no_keys = new_cache (record { ttl_ms = 50; max_entries = 2 })

-- `deps:a:1`, `deps:a:2`, `path:b:1`
abbrev deps_1 : Key
deps_1 = 100 ∷ 58 ∷ 97 ∷ 58 ∷ 49 ∷ []

abbrev deps_2 : Key
deps_2 = 100 ∷ 58 ∷ 97 ∷ 58 ∷ 50 ∷ []

abbrev path_1 : Key
path_1 = 112 ∷ 58 ∷ 98 ∷ 58 ∷ 49 ∷ []

abbrev one_key : QueryCache ℕ
one_key = cache_set 0 deps_1 10 no_keys

abbrev two_keys : QueryCache ℕ
two_keys = cache_set 5 deps_2 20 one_key

one_key-IsConsistent : IsConsistent one_key
unfolding operate new_cache
one_key-IsConsistent =
    operate-IsConsistent 0 (setting deps_1 10) no_keys (new_cache-IsConsistent no_keys.config)

two_keys-IsConsistent : IsConsistent two_keys
unfolding operate
two_keys-IsConsistent = operate-IsConsistent 5 (setting deps_2 20) one_key one_key-IsConsistent

-- A third key drives out the first.
third_evicts : has Key-discrete deps_1 (cache_set 7 path_1 30 two_keys).cache ≡ false
unfolding program
third_evicts = refl

operate-IsConsistent_example : IsConsistent (operate 7 (setting path_1 30) two_keys)
operate-IsConsistent_example =
    operate-IsConsistent 7 (setting path_1 30) two_keys two_keys-IsConsistent

evict-cache_example :
    (evict 7 two_keys).cache
    ≡ drop
        (length (filter_by (is_fresh 7) two_keys.cache) + 1 - 2)
        (filter_by (is_fresh 7) two_keys.cache)
unfolding program
evict-cache_example = evict-cache 7 two_keys (omega arith) two_keys-IsConsistent.distinct

lookup_at-cache_set_self_example : lookup_at 20 path_1 (cache_set 7 path_1 30 two_keys) ≡ some 30
unfolding program
lookup_at-cache_set_self_example = lookup_at-cache_set_self 7 20 path_1 30 two_keys

deps_1_ne : deps_1 ≢ deps_2
deps_1_ne = ground arith

clear_by_prefix-stale_example :
    let (c1, n) = clear_by_prefix (extract_prefix deps_1) two_keys in
    (has Key-discrete deps_1 c1.cache ≡ false)
    × (indexed deps_1 c1.prefix_index ≡ true)
    × (0 < n)
    × ((clear_by_prefix (extract_prefix deps_1) c1).1 ≡ n)
unfolding program
clear_by_prefix-stale_example = clear_by_prefix-stale deps_1 two_keys two_keys-IsConsistent refl

-- A key without two colons is its own prefix, and hides the keys that it starts.
abbrev short_key : Key
short_key = 97 ∷ []

abbrev long_key : Key
long_key = 97 ∷ 98 ∷ []

short_hides_long :
    has Key-discrete long_key
      (clear_by_prefix short_key (cache_set 1 long_key 2 (cache_set 0 short_key 1 no_keys))).0.cache
    ≡ true
unfolding program clear_by_prefix delete_keys add_to_index extract_prefix
short_hides_long = refl
