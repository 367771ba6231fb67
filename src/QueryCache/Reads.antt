-- ===== src/QueryCache/Reads.antt =====
-- What the query cache returns (src/services/graph-service-cache.ts).
use personal_knowledge_mcp.Base.{
  List, Option, [], ap, arith, false, filter_by, if◌then◌else◌, leb, length, none, refl, some, ℕ,
  ◌+◌, ◌<◌, ◌∷◌, ◌≡◌, ◌≢◌, ◌≤◌,
}
use personal_knowledge_mcp.JsMap.Defs.{get, has}
use personal_knowledge_mcp.JsMap.Laws.{
  IsMap, get-delete_ne, get-delete_self, get-set_ne, get-set_self,
}
use personal_knowledge_mcp.QueryCache.Bounds.{
  delete-expired, drop_entries-cache, evict-config, is_fresh,
}
use personal_knowledge_mcp.QueryCache.Cache.{
  CacheEntry, QueryCache, cache_get, cache_set, cleanup, drop_entry, evict, expired_keys,
  is_expired,
}
use personal_knowledge_mcp.QueryCache.Keys.{Key, Key-discrete}
use personal_knowledge_mcp.JsMap.Laws

module _ {V : Type 0} where
  -- What a read at a time returns.
  abbrev pub lookup_at : ℕ → Key → QueryCache V → Option V
  lookup_at now k c = (cache_get now k c).1

  -- What an entry reads as at a time.
  abbrev pub valid_at : ℕ → Option (CacheEntry V) → Option V
  valid_at now none = none
  valid_at now (some e) = if is_expired now e then none else some e.value

  lookup_at-valid_at :
      (now : ℕ) (k : Key) (c : QueryCache V)
      → lookup_at now k c ≡ valid_at now (get Key-discrete k c.cache)
  unfolding cache_get
  lookup_at-valid_at now k c = ground arith

  -- The cache that `set` writes to.
  room_made : ℕ → QueryCache V → QueryCache V
  room_made now c = if leb c.config.max_entries (length c.cache) then evict now c else c

  ttl-room_made : (now : ℕ) (c : QueryCache V) → (room_made now c).config.ttl_ms ≡ c.config.ttl_ms
  unfolding room_made
  ttl-room_made now c = ground (arith, evict-config now c)

  -- Right after `set`, whatever was evicted, the key reads as the value until its time to live is
  -- over, and as nothing after that.
  pub lookup_at-cache_set_self :
      (now later : ℕ) (k : Key) (v : V) (c : QueryCache V)
      → lookup_at later k (cache_set now k v c)
        ≡ (if leb later (now + c.config.ttl_ms) then some v else none)
  unfolding cache_set room_made
  lookup_at-cache_set_self now later k v c = rw (lookup_at-valid_at later k (cache_set now k v c)) (
      rw (Laws.get-set_self Key-discrete k _ (room_made now c).cache)
        (ground (arith, ttl-room_made now c)))

  -- As long as there is room, `set` changes for no other key what is read, at any time.
  pub lookup_at-cache_set_ne :
      (now later : ℕ) (k q : Key) (v : V) (c : QueryCache V)
      → length c.cache < c.config.max_entries
      → q ≢ k
      → lookup_at later q (cache_set now k v c) ≡ lookup_at later q c
  unfolding cache_set
  lookup_at-cache_set_ne now later k q v c room ne =
      let is_room : leb c.config.max_entries (length c.cache) ≡ false = ground arith in
      rw (lookup_at-valid_at later q (cache_set now k v c), lookup_at-valid_at later q c)
        (rw is_room (ap (valid_at later) (Laws.get-set_ne Key-discrete k q _ c.cache ne)))

  -- A read changes nothing that is read at the same time or later, by any key, though it may drop
  -- an expired entry.
  pub lookup_at-cache_get :
      (now later : ℕ) (k q : Key) (c : QueryCache V)
      → now ≤ later
      → lookup_at later q (cache_get now k c).0 ≡ lookup_at later q c
  unfolding cache_get drop_entry
  lookup_at-cache_get now later k q c le = elim (Key-discrete q k) [
    | yes e ↦ rw e (ground (arith, get-delete_self Key-discrete k c.cache))
    | no n ↦ ground (arith, get-delete_ne Key-discrete k q c.cache n)
  ]

  get-filter_by :
      (now : ℕ) (q : Key) (m : List (Key × CacheEntry V))
      → IsMap Key-discrete m
      → get Key-discrete q (filter_by (is_fresh now) m) ≡ elim (get Key-discrete q m) [
        | none ↦ none
        | some e ↦ if is_expired now e then none else some e
      ]
  unfolding get has
  get-filter_by now q [] h = refl
  get-filter_by now q ((k, e) ∷ m) (absent, h) = ground (arith, get-filter_by now q m h)

  -- Cleaning up a cache whose keys are distinct changes nothing that is read at the same time or
  -- later.
  pub lookup_at-cleanup :
      (now later : ℕ) (q : Key) (c : QueryCache V)
      → IsMap Key-discrete c.cache
      → now ≤ later
      → lookup_at later q (cleanup now c).0 ≡ lookup_at later q c
  unfolding cleanup
  lookup_at-cleanup now later q c h le =
      rw (lookup_at-valid_at later q (cleanup now c).0, lookup_at-valid_at later q c)
        (rw (drop_entries-cache (expired_keys now c.cache) c, delete-expired now c.cache h)
          (ground (arith, get-filter_by now q c.cache h)))
