-- ===== src/QueryCache/Cache.antt =====
-- `QueryCache` (src/services/graph-service-cache.ts). An operation takes the clock's value and
-- returns the new cache, beside its result if it has one.
use personal_knowledge_mcp.Base.{
  Bool, List, Option, [], false, filter_by, if◌then◌else◌, leb, length, ltb, none, not, or_default,
  some, suc, true, zero, ℕ, ◌++◌, ◌+◌, ◌==◌, ◌||◌, ◌∷◌,
}
use personal_knowledge_mcp.JsMap.Defs.{delete, get, has, set}
use personal_knowledge_mcp.QueryCache.Keys.{Key, Key-discrete, extract_prefix, starts_with}

pub record CacheConfig : Type 0 where
  pub ttl_ms : ℕ
  pub max_entries : ℕ

abbrev pub default_cache_config : CacheConfig
default_cache_config = record { ttl_ms = 300000; max_entries = 100 }

pub record CacheEntry {ℓ} (V : Type ℓ) : Type ℓ where
  pub value : V
  pub expires_at : ℕ
  pub created_at : ℕ

-- A `Set` of keys is a list without repetition.
abbrev pub PrefixIndex : Type 0
PrefixIndex = List (Key × List Key)

pub record QueryCache (V : Type 0) : Type 0 where
  pub cache : List (Key × CacheEntry V)
  pub config : CacheConfig
  pub hits : ℕ
  pub misses : ℕ
  pub prefix_index : PrefixIndex

pub record CacheStats : Type 0 where
  pub size : ℕ
  pub max_entries : ℕ
  pub ttl_ms : ℕ
  pub hits : ℕ
  pub misses : ℕ
  -- The hit rate is `hits / total`, and 0 if `total` is 0.
  pub total : ℕ

abbrev pub is_key : Key → Key → Bool
is_key j k = elim (Key-discrete j k) [ yes _ ↦ true | no _ ↦ false ]

-- Sets of keys: `add`, `delete` and `has`.
unfoldable pub contains : Key → List Key → Bool
contains k [] = false
contains k (j ∷ ks) = is_key j k || contains k ks

unfoldable pub add : Key → List Key → List Key
unfolding contains
add k ks = if contains k ks then ks else ks ++ (k ∷ [])

unfoldable pub remove : Key → List Key → List Key
remove k ks = filter_by (λ j. not (is_key j k)) ks

unfoldable pub add_to_index : Key → PrefixIndex → PrefixIndex
unfolding add
add_to_index key index =
    let prefix = extract_prefix key in
    set Key-discrete prefix (add key (or_default (get Key-discrete prefix index) [])) index

unfoldable pub remove_from_index : Key → PrefixIndex → PrefixIndex
unfolding remove
remove_from_index key index =
    let prefix = extract_prefix key in
    elim (get Key-discrete prefix index) [
      | none ↦ index
      | some keys ↦
          let rest = remove key keys in
          if length rest == 0
          then delete Key-discrete prefix index
          else set Key-discrete prefix rest index
    ]

abbrev pub is_expired : {V : Type 0} → ℕ → CacheEntry V → Bool
is_expired now e = ltb e.expires_at now

module _ {V : Type 0} where
  unfoldable pub new_cache : CacheConfig → QueryCache V
  new_cache config = record { cache = []; config = config; hits = 0; misses = 0; prefix_index = [] }

  -- `this.cache.delete(key); this.removeFromIndex(key)`
  unfoldable pub drop_entry : Key → QueryCache V → QueryCache V
  drop_entry key c = record c {
    cache = delete Key-discrete key c.cache;
    prefix_index = remove_from_index key c.prefix_index;
  }

  unfoldable pub drop_entries : List Key → QueryCache V → QueryCache V
  drop_entries [] c = c
  drop_entries (k ∷ ks) c = drop_entries ks (drop_entry k c)

  unfoldable pub cache_get : ℕ → Key → QueryCache V → QueryCache V × Option V
  cache_get now key c = elim (get Key-discrete key c.cache) [
    | none ↦ (record c { misses = c.misses + 1 }, none)
    | some e ↦
        if is_expired now e
        then (record (drop_entry key c) { misses = c.misses + 1 }, none)
        else (record c { hits = c.hits + 1 }, some e.value)
  ]

  unfoldable pub cache_has : ℕ → Key → QueryCache V → QueryCache V × Bool
  cache_has now key c = elim (get Key-discrete key c.cache) [
    | none ↦ (c, false)
    | some e ↦ if is_expired now e then (drop_entry key c, false) else (c, true)
  ]

  -- The keys of the expired entries, in the map's order.
  unfoldable pub expired_keys : ℕ → List (Key × CacheEntry V) → List Key
  expired_keys now [] = []
  expired_keys now ((k, e) ∷ m) =
      let rest = expired_keys now m in if is_expired now e then k ∷ rest else rest

  -- `this.cache.keys().next().value`
  unfoldable pub first_key : List (Key × CacheEntry V) → Option Key
  first_key [] = none
  first_key ((k, e) ∷ m) = some k

  -- The `while` loop of `evict`. Each round removes an entry: fuel for every entry is enough.
  unfoldable pub evict_oldest : ℕ → QueryCache V → QueryCache V
  evict_oldest zero c = c
  evict_oldest (suc fuel) c =
      if leb c.config.max_entries (length c.cache)
      then elim (first_key c.cache) [ none ↦ c | some k ↦ evict_oldest fuel (drop_entry k c) ]
      else c

  unfoldable pub evict : ℕ → QueryCache V → QueryCache V
  unfolding expired_keys
  evict now c =
      let c1 = drop_entries (expired_keys now c.cache) c in evict_oldest (length c1.cache) c1

  unfoldable pub cache_set : ℕ → Key → V → QueryCache V → QueryCache V
  cache_set now key value c =
      let c1 = if leb c.config.max_entries (length c.cache) then evict now c else c in
      record c1 {
        cache =
            set Key-discrete key
              (record { value = value; expires_at = now + c1.config.ttl_ms; created_at = now })
              c1.cache;
        prefix_index = add_to_index key c1.prefix_index;
      }

  unfoldable pub cache_delete : Key → QueryCache V → QueryCache V × Bool
  cache_delete key c =
      let deleted = has Key-discrete key c.cache in
      let c1 = record c { cache = delete Key-discrete key c.cache } in
      (
        (if deleted
            then record c1 { prefix_index = remove_from_index key c1.prefix_index }
            else c1),
        deleted,
      )

  unfoldable pub clear : QueryCache V → QueryCache V
  clear c = record c { cache = []; prefix_index = []; hits = 0; misses = 0 }

  unfoldable pub stats : QueryCache V → CacheStats
  stats c = record {
    size = length c.cache;
    max_entries = c.config.max_entries;
    ttl_ms = c.config.ttl_ms;
    hits = c.hits;
    misses = c.misses;
    total = c.hits + c.misses;
  }

  -- `keys`: those whose entries have not expired.
  unfoldable pub valid_keys : ℕ → List (Key × CacheEntry V) → List Key
  valid_keys now [] = []
  valid_keys now ((k, e) ∷ m) =
      let rest = valid_keys now m in if leb now e.expires_at then k ∷ rest else rest

  unfoldable pub cleanup : ℕ → QueryCache V → QueryCache V × ℕ
  unfolding expired_keys
  cleanup now c = let gone = expired_keys now c.cache in (drop_entries gone c, length gone)

  -- `this.cache.delete(key)` for each key: the index is not touched.
  unfoldable pub delete_keys : List Key → List (Key × CacheEntry V) → List (Key × CacheEntry V)
  delete_keys [] m = m
  delete_keys (k ∷ ks) m = delete_keys ks (delete Key-discrete k m)

  unfoldable pub keys_with_prefix : Key → List (Key × CacheEntry V) → List Key
  keys_with_prefix prefix [] = []
  keys_with_prefix prefix ((k, e) ∷ m) =
      let rest = keys_with_prefix prefix m in if starts_with k prefix then k ∷ rest else rest

  -- The set that the index holds for the prefix if it has members, else all keys that start so.
  unfoldable pub keys_to_delete : Key → QueryCache V → List Key
  unfolding keys_with_prefix
  keys_to_delete prefix c = elim (get Key-discrete prefix c.prefix_index) [
    | none ↦ keys_with_prefix prefix c.cache
    | some keys ↦ if ltb 0 (length keys) then keys else keys_with_prefix prefix c.cache
  ]

  unfoldable pub clear_by_prefix : Key → QueryCache V → QueryCache V × ℕ
  unfolding keys_to_delete
  clear_by_prefix prefix c =
      let gone = keys_to_delete prefix c in
      (record c { cache = delete_keys gone c.cache }, length gone)
