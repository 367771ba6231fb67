-- ===== src/QueryCache/Prefix.antt =====
-- `clearByPrefix` of the query cache, and the index that it leaves behind
-- (src/services/graph-service-cache.ts).
use personal_knowledge_mcp.Base.{
  Bool-cases, List, Option, [], ap, arith, false, inl, inr, length, lt→ltb, none, not, or_default,
  refl, some, sym, true, ◌&&◌, ◌<◌, ◌∙◌, ◌∷◌, ◌≡◌,
}
use personal_knowledge_mcp.JsMap.Defs.{delete, get, has}
use personal_knowledge_mcp.JsMap.Laws.{has-delete}
use personal_knowledge_mcp.QueryCache.Cache.{
  CacheEntry, QueryCache, clear_by_prefix, contains, delete_keys, keys_to_delete,
}
use personal_knowledge_mcp.QueryCache.Entries.{IsConsistent}
use personal_knowledge_mcp.QueryCache.Index.{indexed}
use personal_knowledge_mcp.QueryCache.Keys.{Key, Key-discrete, extract_prefix}

pos_of_contains : (k : Key) (ks : List Key) → contains k ks ≡ true → 0 < length ks
unfolding contains
pos_of_contains k [] h = cc
pos_of_contains k (j ∷ ks) h = omega arith

module _ {V : Type 0} where
  has-delete_keys :
      (k : Key) (ks : List Key) (m : List (Key × CacheEntry V))
      → has Key-discrete k (delete_keys ks m) ≡ (not (contains k ks) && has Key-discrete k m)
  unfolding delete_keys contains
  has-delete_keys k [] m = ground arith
  has-delete_keys k (j ∷ ks) m =
      ground (arith, has-delete_keys k ks (delete Key-discrete j m), has-delete Key-discrete j k m)

  -- The keys to delete for the prefix of an indexed key are those that the index holds for it.
  keys_to_delete-indexed :
      (k : Key) (c : QueryCache V)
      → indexed k c.prefix_index ≡ true
      → (keys_to_delete (extract_prefix k) c
          ≡ or_default (get Key-discrete (extract_prefix k) c.prefix_index) [])
        × (0 < length (keys_to_delete (extract_prefix k) c))
  unfolding keys_to_delete indexed
  keys_to_delete-indexed k c h = go (get Key-discrete (extract_prefix k) c.prefix_index) refl h
    where
      go :
          (o : Option (List Key))
          → get Key-discrete (extract_prefix k) c.prefix_index ≡ o
          → contains k (or_default o []) ≡ true
          → (keys_to_delete (extract_prefix k) c ≡ or_default o [])
            × (0 < length (keys_to_delete (extract_prefix k) c))
      go none e i = unfold contains in cc
      go (some keys) e i =
          let pos = pos_of_contains k keys i in
          rw (e, keys_to_delete, lt→ltb 0 (length keys) pos) (refl, pos)

  has-clear_by_prefix :
      (k : Key) (c : QueryCache V)
      → has Key-discrete k (clear_by_prefix (extract_prefix k) c).0.cache
        ≡ (not (contains k (keys_to_delete (extract_prefix k) c)) && has Key-discrete k c.cache)
  unfolding clear_by_prefix
  has-clear_by_prefix k c = has-delete_keys k (keys_to_delete (extract_prefix k) c) c.cache

  -- Clearing the prefix of a key removes the key from a consistent cache.
  pub clear_by_prefix-clears :
      (k : Key) (c : QueryCache V)
      → IsConsistent c
      → has Key-discrete k (clear_by_prefix (extract_prefix k) c).0.cache ≡ false
  unfolding indexed
  clear_by_prefix-clears k c h = elim (Bool-cases (indexed k c.prefix_index)) [
    | inl held ↦ rw (has-clear_by_prefix k c, (keys_to_delete-indexed k c held).0, held) refl
    | inr free ↦ rw (has-clear_by_prefix k c, h.agrees k, free) (ground arith)
  ]

  -- Clearing the prefix of a key of a consistent cache removes the key from the cache but not
  -- from the index, and the same call once more reports as many deletions as the first, which is
  -- more than none.
  pub clear_by_prefix-stale :
      (k : Key) (c : QueryCache V)
      → IsConsistent c
      → has Key-discrete k c.cache ≡ true
      → let (c1, n) = clear_by_prefix (extract_prefix k) c in
        (has Key-discrete k c1.cache ≡ false)
        × (indexed k c1.prefix_index ≡ true)
        × (0 < n)
        × ((clear_by_prefix (extract_prefix k) c1).1 ≡ n)
  unfolding clear_by_prefix
  clear_by_prefix-stale k c h there =
      let held = sym (h.agrees k) ∙ there in
      let c1 = (clear_by_prefix (extract_prefix k) c).0 in
      let (same, pos) = keys_to_delete-indexed k c held in
      (
        clear_by_prefix-clears k c h,
        held,
        pos,
        ap (length {A = Key}) ((keys_to_delete-indexed k c1 held).0 ∙ sym same),
      )
