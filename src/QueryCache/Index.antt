-- ===== src/QueryCache/Index.antt =====
-- The prefix index of the query cache as a set of keys (src/services/graph-service-cache.ts).
use personal_knowledge_mcp.Base.{
  Bool, Bool-cases, List, [], ap, arith, false, inl, inr, length, not, or_default, refl, sym, true,
  ◌&&◌, ◌++◌, ◌==◌, ◌||◌, ◌∷◌, ◌≡◌,
}
use personal_knowledge_mcp.JsMap.Defs.{get}
use personal_knowledge_mcp.JsMap.Laws.{get-delete_ne, get-delete_self, get-set_ne, get-set_self}
use personal_knowledge_mcp.QueryCache.Cache.{
  PrefixIndex, add, add_to_index, contains, is_key, remove, remove_from_index,
}
use personal_knowledge_mcp.QueryCache.Keys.{Key, Key-discrete, extract_prefix}

-- Whether the index holds the key, under the key's own prefix.
unfoldable pub indexed : Key → PrefixIndex → Bool
unfolding contains
indexed k index = contains k (or_default (get Key-discrete (extract_prefix k) index) [])

contains-append :
    (k j : Key) (ks : List Key) → contains k (ks ++ (j ∷ [])) ≡ (contains k ks || is_key j k)
unfolding contains
contains-append k j [] = ground arith
contains-append k j (x ∷ ks) = ground (arith, contains-append k j ks)

contains-add : (k j : Key) (ks : List Key) → contains k (add j ks) ≡ (is_key j k || contains k ks)
unfolding add
contains-add k j ks = elim (Key-discrete j k) [
  | yes e ↦ rw (e) (ground (arith, contains-append k k ks))
  | no n ↦ ground (arith, contains-append k j ks)
]

contains-remove :
    (k j : Key) (ks : List Key) → contains k (remove j ks) ≡ (not (is_key j k) && contains k ks)
unfolding contains remove
contains-remove k j [] = ground arith
contains-remove k j (x ∷ ks) = ground (arith, contains-remove k j ks)

differ : (k j : Key) → ¬ (extract_prefix k ≡ extract_prefix j) → is_key j k ≡ false
differ k j n = elim (Key-discrete j k) [
  | yes e ↦ absurd (n (sym (ap extract_prefix e)))
  | no m ↦ ground arith
]

pub indexed-add :
    (k j : Key) (index : PrefixIndex)
    → indexed k (add_to_index j index) ≡ (is_key j k || indexed k index)
unfolding indexed add_to_index
indexed-add k j index =
    let p = extract_prefix j in
    let keys = or_default (get Key-discrete p index) [] in
    elim (Key-discrete (extract_prefix k) p) [
      | yes e ↦ rw (e, get-set_self Key-discrete p (add j keys) index) (contains-add k j keys)
      | no n ↦
          rw (get-set_ne Key-discrete p (extract_prefix k) (add j keys) index n)
            (ground (arith, n, differ k j n))
    ]

nil-of-empty : (keys : List Key) → (length keys == 0) ≡ true → keys ≡ []
nil-of-empty [] h = refl
nil-of-empty (k ∷ keys) h = absurd (ground arith)

pub indexed-remove :
    (k j : Key) (index : PrefixIndex)
    → indexed k (remove_from_index j index) ≡ (not (is_key j k) && indexed k index)
unfolding indexed remove_from_index contains
indexed-remove k j index =
    let p = extract_prefix j in
    let q = extract_prefix k in
    let keys = or_default (get Key-discrete p index) [] in
    elim (Key-discrete q p) [
      | yes e ↦ elim (Bool-cases (length (remove j keys) == 0)) [
        | inl z ↦ ground (
          arith,
          e,
          contains-remove k j keys,
          nil-of-empty (remove j keys) z,
          get-delete_self Key-discrete p index,
          get-set_self Key-discrete p (remove j keys) index,
        )
        | inr z ↦ ground (
          arith,
          e,
          contains-remove k j keys,
          get-delete_self Key-discrete p index,
          get-set_self Key-discrete p (remove j keys) index,
        )
      ]
      | no n ↦ ground (
        arith,
        differ k j n,
        get-delete_ne Key-discrete p q index n,
        get-set_ne Key-discrete p q (remove j keys) index n,
      )
    ]
