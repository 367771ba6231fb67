-- ===== src/QueryCache/Bounds.antt =====
-- Which entries the query cache evicts, and its bound (src/services/graph-service-cache.ts).
use personal_knowledge_mcp.Base.{
  Bool, Bool-cases, List, Option-cases, [], ap, arith, drop, drop-nil, false, filter_by, inl, inr,
  leb, length, length-drop, lt_of_not-leb, not, refl, subst, suc, sym, tests, zero, ℕ, ◌+◌, ◌-◌,
  ◌∙◌, ◌∷◌, ◌≡◌, ◌≤◌,
}
use personal_knowledge_mcp.JsMap.Defs.{delete, get, has}
use personal_knowledge_mcp.JsMap.Laws.{IsMap, delete_absent, length-set-le}
use personal_knowledge_mcp.QueryCache.Cache.{
  CacheEntry, QueryCache, cache_set, contains, delete_keys, drop_entries, drop_entry, evict,
  evict_oldest, expired_keys, first_key, is_expired,
}
use personal_knowledge_mcp.QueryCache.Keys.{Key, Key-discrete}

module _ {V : Type 0} where
  abbrev pub is_fresh : ℕ → Key × CacheEntry V → Bool
  is_fresh now (k, e) = not (is_expired now e)

  drop_entry-config : (k : Key) (c : QueryCache V) → (drop_entry k c).config ≡ c.config
  unfolding drop_entry
  drop_entry-config k c = refl

  drop_entry-config_max :
      (k : Key) (c : QueryCache V) → (drop_entry k c).config.max_entries ≡ c.config.max_entries
  drop_entry-config_max k c = ap (λ x. x.max_entries) (drop_entry-config k c)

  pub drop_entries-config :
      (ks : List Key) (c : QueryCache V) → (drop_entries ks c).config ≡ c.config
  unfolding drop_entries
  drop_entries-config [] c = refl
  drop_entries-config (k ∷ ks) c = drop_entries-config ks (drop_entry k c) ∙ drop_entry-config k c

  pub drop_entries-cache :
      (ks : List Key) (c : QueryCache V) → (drop_entries ks c).cache ≡ delete_keys ks c.cache
  unfolding drop_entries delete_keys drop_entry
  drop_entries-cache [] c = refl
  drop_entries-cache (k ∷ ks) c = drop_entries-cache ks (drop_entry k c)

  not-expired :
      (now : ℕ) (k : Key) (m : List (Key × CacheEntry V))
      → has Key-discrete k m ≡ false
      → contains k (expired_keys now m) ≡ false
  unfolding has get contains expired_keys
  not-expired now k [] h = refl
  not-expired now k ((j, e) ∷ m) h = ground (arith, not-expired now k m)

  delete_keys-cons :
      (ks : List Key) (k : Key) (e : CacheEntry V) (m : List (Key × CacheEntry V))
      → contains k ks ≡ false
      → delete_keys ks ((k, e) ∷ m) ≡ (k, e) ∷ delete_keys ks m
  unfolding delete_keys contains delete
  delete_keys-cons [] k e m h = refl
  delete_keys-cons (j ∷ ks) k e m h =
      ground (arith, delete_keys-cons ks k e (delete Key-discrete j m))

  delete-head :
      (k : Key) (e : CacheEntry V) (m : List (Key × CacheEntry V))
      → has Key-discrete k m ≡ false
      → delete Key-discrete k ((k, e) ∷ m) ≡ m
  unfolding delete
  delete-head k e m h = ground (arith, delete_absent Key-discrete k m)

  delete_keys-step :
      (k : Key) (ks : List Key) (m : List (Key × CacheEntry V))
      → delete_keys (k ∷ ks) m ≡ delete_keys ks (delete Key-discrete k m)
  unfolding delete_keys
  delete_keys-step k ks m = refl

  filter_by-absent :
      (now : ℕ) (k : Key) (m : List (Key × CacheEntry V))
      → has Key-discrete k m ≡ false
      → has Key-discrete k (filter_by (is_fresh now) m) ≡ false
  unfolding has get
  filter_by-absent now k [] h = refl
  filter_by-absent now k ((j, e) ∷ m) h = ground (arith, filter_by-absent now k m)

  -- The first pass of `evict`, and `cleanup`: exactly the expired entries go.
  pub delete-expired :
      (now : ℕ) (m : List (Key × CacheEntry V))
      → IsMap Key-discrete m
      → delete_keys (expired_keys now m) m ≡ filter_by (is_fresh now) m
  unfolding expired_keys
  delete-expired now [] h = unfold delete_keys in refl
  delete-expired now ((k, e) ∷ m) (absent, h) = ground (
    arith,
    delete_keys-step k (expired_keys now m) ((k, e) ∷ m),
    delete-head k e m absent,
    delete_keys-cons (expired_keys now m) k e m (not-expired now k m absent),
    delete-expired now m h,
  )

  filter_by-IsMap :
      (now : ℕ) (m : List (Key × CacheEntry V))
      → IsMap Key-discrete m
      → IsMap Key-discrete (filter_by (is_fresh now) m)
  filter_by-IsMap now [] h = tt
  filter_by-IsMap now ((k, e) ∷ m) (absent, h) =
      ground (arith, filter_by-IsMap now m h, filter_by-absent now k m absent)

  -- A round of the second pass removes the first entry.
  drop_entry-first :
      (k : Key) (e : CacheEntry V) (m : List (Key × CacheEntry V)) (c : QueryCache V)
      → c.cache ≡ (k, e) ∷ m
      → IsMap Key-discrete c.cache
      → (drop_entry k c).cache ≡ m
  unfolding drop_entry
  drop_entry-first k e m c p h = rw p (delete-head k e m (subst (IsMap Key-discrete) p h).0)

  -- The second pass keeps the newest entries, one fewer than the maximum.
  evict_oldest-cache :
      (fuel n : ℕ) (c : QueryCache V) (m : List (Key × CacheEntry V))
      → c.cache ≡ m
      → c.config.max_entries ≡ suc n
      → length m ≤ fuel
      → IsMap Key-discrete m
      → (evict_oldest fuel c).cache ≡ drop (length m - n) m
  unfolding evict_oldest first_key
  evict_oldest-cache zero n c [] p q le h = p ∙ sym (drop-nil (0 - n))
  evict_oldest-cache zero n c (x ∷ m) p q le h = absurd (omega arith)
  evict_oldest-cache (suc fuel) n c [] p q le h =
      ground (arith, drop-nil {A = Key × CacheEntry V} (0 - n))
  evict_oldest-cache (suc fuel) n c ((k, e) ∷ m) p q le (absent, h) =
      elim (Bool-cases (leb c.config.max_entries (length c.cache))) [
        | inl full ↦
            let one_more : suc (length m) - n ≡ suc (length m - n) = ground arith in
            rw (one_more) (
              ground (
                arith,
                evict_oldest-cache fuel n (drop_entry k c) m
                    (drop_entry-first k e m c p (subst (IsMap Key-discrete) (sym p) (absent, h)))
                    (drop_entry-config_max k c ∙ q) (omega arith) h,
              ))
        | inr room ↦
            let none_more : suc (length m) - n ≡ 0 = ground arith in rw (none_more) (ground arith)
      ]

  -- When an entry has to make room, at least one entry being allowed and no key standing twice,
  -- the expired entries go and of the others the oldest go, in the order of insertion, until one
  -- fewer than `maxEntries` is left.
  pub evict-cache :
      (now : ℕ) (c : QueryCache V)
      → 1 ≤ c.config.max_entries
      → IsMap Key-discrete c.cache
      → let fresh = filter_by (is_fresh now) c.cache in
        (evict now c).cache ≡ drop (length fresh + 1 - c.config.max_entries) fresh
  unfolding evict
  evict-cache now c pos h =
      let c1 = drop_entries (expired_keys now c.cache) c in
      let fresh = filter_by (is_fresh now) c.cache in
      let kept : c1.cache ≡ fresh =
        drop_entries-cache (expired_keys now c.cache) c ∙ delete-expired now c.cache h in
      let n = c.config.max_entries - 1 in
      let e : c.config.max_entries ≡ suc n = omega arith in
      let e1 : c1.config.max_entries ≡ suc n =
        ap (λ x. x.max_entries) (drop_entries-config (expired_keys now c.cache) c) ∙ e in
      let r =
        evict_oldest-cache (length c1.cache) n c1 fresh kept e1
          (omega (arith, ap (length {A = Key × CacheEntry V}) kept))
          (filter_by-IsMap now c.cache h) in
      let same : length fresh - n ≡ length fresh + 1 - c.config.max_entries = omega arith in
      rw same at r

  evict_oldest-config : (fuel : ℕ) (c : QueryCache V) → (evict_oldest fuel c).config ≡ c.config
  unfolding evict_oldest
  evict_oldest-config zero c = refl
  evict_oldest-config (suc fuel) c = elim (Bool-cases (leb c.config.max_entries (length c.cache))) [
    | inl full ↦ elim (Option-cases (first_key c.cache)) [
      | inl e ↦ rw (full, e, evict_oldest) refl
      | inr (k, e) ↦
          rw (full, e, evict_oldest)
            (evict_oldest-config fuel (drop_entry k c) ∙ drop_entry-config k c)
    ]
    | inr room ↦ rw (room) refl
  ]

  pub evict-config : (now : ℕ) (c : QueryCache V) → (evict now c).config ≡ c.config
  unfolding evict
  evict-config now c =
      let c1 = drop_entries (expired_keys now c.cache) c in
      evict_oldest-config (length c1.cache) c1 ∙ drop_entries-config (expired_keys now c.cache) c

  evict_bounded :
      (now : ℕ) (c : QueryCache V)
      → 1 ≤ c.config.max_entries
      → IsMap Key-discrete c.cache
      → length (evict now c).cache + 1 ≤ c.config.max_entries
  evict_bounded now c pos h =
      let fresh = filter_by (is_fresh now) c.cache in
      let n = length fresh + 1 - c.config.max_entries in
      rw (evict-cache now c pos h) (omega (arith, length-drop n fresh))

  -- A cache whose keys are distinct and which holds at most `maxEntries` entries, at least one
  -- being allowed, holds at most that many after `set`, whatever it has to evict.
  pub cache_set_bounded :
      (now : ℕ) (k : Key) (v : V) (c : QueryCache V)
      → 1 ≤ c.config.max_entries
      → IsMap Key-discrete c.cache
      → length c.cache ≤ c.config.max_entries
      → length (cache_set now k v c).cache ≤ c.config.max_entries
  unfolding cache_set
  cache_set_bounded now k v c pos h le =
      elim (Bool-cases (leb c.config.max_entries (length c.cache))) [
        | inl full ↦ rw full (
            omega (
              arith,
              evict_bounded now c pos h,
              length-set-le {V = CacheEntry V} Key-discrete k _ (evict now c).cache,
            ))
        | inr room ↦ rw room (
            omega (
              tests,
              lt_of_not-leb c.config.max_entries (length c.cache) room,
              length-set-le {V = CacheEntry V} Key-discrete k _ c.cache,
            ))
      ]
