-- ===== src/QueryCache/Keys.antt =====
-- Cache keys as lists of UTF-16 units, their prefix, and the test `startsWith`
-- (src/services/graph-service-cache.ts).
use personal_knowledge_mcp.Base.{
  Bool, List, Option, [], false, if◌then◌else◌, none, some, true, ℕ, ℕ_discrete, ◌&&◌, ◌++◌, ◌==◌,
  ◌∷◌,
}
use mathlib.Core.Option

abbrev pub Key : Type 0
Key = List ℕ

unfoldable pub Key-discrete : Discrete Key
Key-discrete = hlevel ℕ_discrete

abbrev pub colon : ℕ
colon = b':'

-- The text up to and with the first colon, and the text behind it.
unfoldable pub split_colon : Key → Option (Key × Key)
split_colon [] = none
split_colon (x ∷ xs) =
    let rest = Option.map (λ p. let (before, after) = p in (x ∷ before, after)) (split_colon xs) in
    if x == colon then some (x ∷ [], xs) else rest

-- `extractPrefix`: up to and with the second colon, or the whole key if it has fewer than two.
unfoldable pub extract_prefix : Key → Key
unfolding split_colon
extract_prefix key = elim (split_colon key) [
  | none ↦ key
  | some (first, rest) ↦ elim (split_colon rest) [ none ↦ key | some (second, _) ↦ first ++ second ]
]

unfoldable pub starts_with : Key → Key → Bool
starts_with key [] = true
starts_with [] (p ∷ ps) = false
starts_with (x ∷ xs) (p ∷ ps) = x == p && starts_with xs ps
