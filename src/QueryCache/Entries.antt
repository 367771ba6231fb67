-- ===== src/QueryCache/Entries.antt =====
-- The prefix index of the query cache against its entries, over the operations
-- (src/services/graph-service-cache.ts).
use personal_knowledge_mcp.Base.{
  Bool-cases, List, Option-cases, [], arith, inl, inr, leb, length, refl, suc, zero, ℕ, ◌∷◌, ◌≡◌,
}
use personal_knowledge_mcp.JsMap.Defs.{get, has, set}
use personal_knowledge_mcp.JsMap.Laws.{
  IsMap, delete-IsMap, delete_absent, has-delete, has-set, set-IsMap,
}
use personal_knowledge_mcp.QueryCache.Cache.{
  CacheConfig, CacheEntry, QueryCache, add_to_index, cache_delete, cache_get, cache_has, cache_set,
  cleanup, clear, contains, drop_entries, drop_entry, evict, evict_oldest, expired_keys, first_key,
  is_expired, new_cache,
}
use personal_knowledge_mcp.QueryCache.Index.{indexed, indexed-add, indexed-remove}
use personal_knowledge_mcp.QueryCache.Keys.{Key, Key-discrete}

-- No key stands twice, and the index holds exactly the keys of the cache.
pub record IsConsistent {V : Type 0} (c : QueryCache V) : Type 0 where
  pub distinct : IsMap Key-discrete c.cache
  pub agrees : (k : Key) → has Key-discrete k c.cache ≡ indexed k c.prefix_index

module _ {V : Type 0} where
  pub new_cache-IsConsistent : (config : CacheConfig) → IsConsistent {V = V} (new_cache config)
  unfolding new_cache has get indexed contains
  new_cache-IsConsistent config = record { distinct = tt; agrees = λ k. refl }

  pub drop_entry-IsConsistent :
      (k : Key) (c : QueryCache V) → IsConsistent c → IsConsistent (drop_entry k c)
  unfolding drop_entry
  drop_entry-IsConsistent k c h = record {
    distinct = delete-IsMap Key-discrete k c.cache h.distinct;
    agrees = λ j.
        ground (
          arith,
          has-delete Key-discrete k j c.cache,
          indexed-remove j k c.prefix_index,
          h.agrees j,
        );
  }

  pub drop_entries-IsConsistent :
      (ks : List Key) (c : QueryCache V) → IsConsistent c → IsConsistent (drop_entries ks c)
  unfolding drop_entries
  drop_entries-IsConsistent [] c h = h
  drop_entries-IsConsistent (k ∷ ks) c h =
      drop_entries-IsConsistent ks (drop_entry k c) (drop_entry-IsConsistent k c h)

  pub evict_oldest-IsConsistent :
      (fuel : ℕ) (c : QueryCache V) → IsConsistent c → IsConsistent (evict_oldest fuel c)
  unfolding evict_oldest
  evict_oldest-IsConsistent zero c h = h
  evict_oldest-IsConsistent (suc fuel) c h =
      elim (Bool-cases (leb c.config.max_entries (length c.cache))) [
        | inl full ↦ elim (Option-cases (first_key c.cache)) [
          | inl e ↦ rw (full, e, evict_oldest) h
          | inr (k, e) ↦
              rw (full, e, evict_oldest)
                (evict_oldest-IsConsistent fuel (drop_entry k c) (drop_entry-IsConsistent k c h))
        ]
        | inr room ↦ rw (room) h
      ]

  evict-IsConsistent : (now : ℕ) (c : QueryCache V) → IsConsistent c → IsConsistent (evict now c)
  unfolding evict
  evict-IsConsistent now c h =
      let c1 = drop_entries (expired_keys now c.cache) c in
      evict_oldest-IsConsistent (length c1.cache) c1 (drop_entries-IsConsistent _ c h)

  pub cache_get-IsConsistent :
      (now : ℕ) (k : Key) (c : QueryCache V) → IsConsistent c → IsConsistent (cache_get now k c).0
  unfolding cache_get
  cache_get-IsConsistent now k c h = elim (Option-cases (get Key-discrete k c.cache)) [
    | inl e ↦ rw (e, cache_get) (record { distinct = h.distinct; agrees = h.agrees })
    | inr (v, e) ↦ elim (Bool-cases (is_expired now v)) [
      | inl old ↦
          let d = drop_entry-IsConsistent k c h in
          rw (e, old, cache_get) (record { distinct = d.distinct; agrees = d.agrees })
      | inr fresh ↦ rw (e, fresh, cache_get) (record { distinct = h.distinct; agrees = h.agrees })
    ]
  ]

  pub cache_has-IsConsistent :
      (now : ℕ) (k : Key) (c : QueryCache V) → IsConsistent c → IsConsistent (cache_has now k c).0
  unfolding cache_has
  cache_has-IsConsistent now k c h = elim (Option-cases (get Key-discrete k c.cache)) [
    | inl e ↦ rw (e, cache_has) h
    | inr (v, e) ↦ elim (Bool-cases (is_expired now v)) [
      | inl old ↦ rw (e, old, cache_has) (drop_entry-IsConsistent k c h)
      | inr fresh ↦ rw (e, fresh, cache_has) h
    ]
  ]

  with_entry-IsConsistent :
      (k : Key) (e : CacheEntry V) (c : QueryCache V)
      → IsConsistent c
      → IsConsistent (record c {
        cache = set Key-discrete k e c.cache;
        prefix_index = add_to_index k c.prefix_index;
      })
  with_entry-IsConsistent k e c h = record {
    distinct = set-IsMap Key-discrete k e c.cache h.distinct;
    agrees = λ j.
        ground
          (arith, has-set Key-discrete k j e c.cache, indexed-add j k c.prefix_index, h.agrees j);
  }

  pub cache_set-IsConsistent :
      (now : ℕ) (k : Key) (v : V) (c : QueryCache V)
      → IsConsistent c
      → IsConsistent (cache_set now k v c)
  unfolding cache_set
  cache_set-IsConsistent now k v c h =
      elim (Bool-cases (leb c.config.max_entries (length c.cache))) [
        | inl full ↦
            rw full (with_entry-IsConsistent k _ (evict now c) (evict-IsConsistent now c h))
        | inr room ↦ rw room (with_entry-IsConsistent k _ c h)
      ]

  pub cache_delete-IsConsistent :
      (k : Key) (c : QueryCache V) → IsConsistent c → IsConsistent (cache_delete k c).0
  unfolding cache_delete
  cache_delete-IsConsistent k c h = elim (Bool-cases (has Key-discrete k c.cache)) [
    | inl there ↦
        let d = drop_entry-IsConsistent k c h in
        rw there (unfold drop_entry in record { distinct = d.distinct; agrees = d.agrees })
    | inr absent ↦
        rw (absent, delete_absent Key-discrete k c.cache absent)
          (record { distinct = h.distinct; agrees = h.agrees })
  ]

  pub cleanup-IsConsistent :
      (now : ℕ) (c : QueryCache V) → IsConsistent c → IsConsistent (cleanup now c).0
  unfolding cleanup
  cleanup-IsConsistent now c h = drop_entries-IsConsistent (expired_keys now c.cache) c h

  pub clear-IsConsistent : (c : QueryCache V) → IsConsistent (clear c)
  unfolding clear has get indexed contains
  clear-IsConsistent c = record { distinct = tt; agrees = λ k. refl }

-- The operations that keep the index and the cache in step.
pub data Operation (V : Type 0) : Type 0 where
  getting : Key → Operation V
  testing : Key → Operation V
  setting : Key → V → Operation V
  deleting : Key → Operation V
  cleaning : Operation V
  clearing : Operation V

unfoldable pub operate : {V : Type 0} → ℕ → Operation V → QueryCache V → QueryCache V
operate now (getting k) c = (cache_get now k c).0
operate now (testing k) c = (cache_has now k c).0
operate now (setting k v) c = cache_set now k v c
operate now (deleting k) c = (cache_delete k c).0
operate now cleaning c = (cleanup now c).0
operate now clearing c = clear c

-- `get`, `has`, `set` (evictions included), `delete`, `cleanup` and `clear` keep a cache
-- consistent, that is, its keys distinct and the prefix index equal to the set of these keys.
pub operate-IsConsistent :
    {V : Type 0} (now : ℕ) (o : Operation V) (c : QueryCache V)
    → IsConsistent c
    → IsConsistent (operate now o c)
unfolding operate
operate-IsConsistent now (getting k) c h = cache_get-IsConsistent now k c h
operate-IsConsistent now (testing k) c h = cache_has-IsConsistent now k c h
operate-IsConsistent now (setting k v) c h = cache_set-IsConsistent now k v c h
operate-IsConsistent now (deleting k) c h = cache_delete-IsConsistent k c h
operate-IsConsistent now cleaning c h = cleanup-IsConsistent now c h
operate-IsConsistent now clearing c h = clear-IsConsistent c
