-- ===== src/Tokens/Listed.antt =====
-- What the listings show (src/auth/token-service.ts).
use personal_knowledge_mcp.Base.{
  Bool, List, Option, Text, [], ap, arith, if_neg, if_pos, if◌then◌else◌, ite, none, refl, some,
  sym, ℕ, ◌∙◌, ◌∷◌, ◌≡◌, ◌≢◌, ◌≤◌,
}
use personal_knowledge_mcp.JsMap.Defs.{get, has}
use personal_knowledge_mcp.Tokens.Queries.{
  StatusItem, TokenListItem, entries, insert_newest, is_active, list_all_tokens, list_tokens,
  with_token,
}
use personal_knowledge_mcp.Tokens.Rules.{active-lem, active_metadata}
use personal_knowledge_mcp.Tokens.Store.{Text-discrete, TokenMap, find_token, has_token}
use personal_knowledge_mcp.Tokens.Validation.{StoredToken, TokenMetadata}
use mathlib.Core.Option

-- What a listing shows of a hash.
abbrev pub shown : Text → List TokenListItem → Option TokenMetadata
shown h [] = none
shown h (i ∷ is) = ite (Text-discrete i.hash h) (some i.metadata) (shown h is)

abbrev listed_metadata : ℕ → Option StoredToken → Option TokenMetadata
listed_metadata now none = none
listed_metadata now (some t) = if is_active now t then some t.metadata else none

listed-active : (now : ℕ) (o : Option StoredToken) → listed_metadata now o ≡ active_metadata now o
listed-active now none = refl
listed-active now (some t) = active-lem now t

shown-with_token :
    (now : ℕ) (h g : Text) (o : Option StoredToken) (es : List (Text × StoredToken))
    → shown h (list_tokens now (with_token g o es))
      ≡ ite
          (Text-discrete g h)
          (Option.or_else (listed_metadata now o) (shown h (list_tokens now es)))
          (shown h (list_tokens now es))
unfolding list_tokens Option.or_else
shown-with_token now h g none es = ground arith
shown-with_token now h g (some t) es = ground arith

find-cons_self :
    (h : Text) (u : Unit {0}) (tokens : TokenMap) (objects : List (Text × StoredToken))
    → find_token h ((h, u) ∷ tokens) objects ≡ get Text-discrete h objects
unfolding has get
find-cons_self h u tokens objects = rw (if_pos (Text-discrete h h) refl)

find-cons_ne :
    (h g : Text) (u : Unit {0}) (tokens : TokenMap) (objects : List (Text × StoredToken))
    → g ≢ h
    → find_token h ((g, u) ∷ tokens) objects ≡ find_token h tokens objects
unfolding has get
find-cons_ne h g u tokens objects n = rw (if_neg (Text-discrete g h) n)

or_else-active :
    (now : ℕ) (o : Option StoredToken) (b : Bool)
    → Option.or_else (listed_metadata now o) (listed_metadata now (if b then o else none))
      ≡ listed_metadata now o
unfolding Option.or_else
or_else-active now none b = ground arith
or_else-active now (some t) b = ground arith

again :
    (now : ℕ) (h g : Text) (items : List TokenListItem) (tokens : TokenMap)
    (objects : List (Text × StoredToken)) (u : Unit {0})
    → shown h items ≡ listed_metadata now (find_token h tokens objects)
    → ite
        (Text-discrete g h)
        (Option.or_else (listed_metadata now (get Text-discrete g objects)) (shown h items))
        (shown h items)
      ≡ listed_metadata now (find_token h ((g, u) ∷ tokens) objects)
again now h g items tokens objects u e = elim (Text-discrete g h) [
  | yes p ↦
      rw (if_pos (Text-discrete g h) p, p, e)
        (or_else-active now (get Text-discrete h objects) (has_token h tokens)
          ∙ sym (ap (listed_metadata now) (find-cons_self h u tokens objects)))
  | no n ↦
      rw (if_neg (Text-discrete g h) n, e)
        (ap (listed_metadata now) (sym (find-cons_ne h g u tokens objects n)))
]

shown-listed :
    (now : ℕ) (h : Text) (tokens : TokenMap) (objects : List (Text × StoredToken))
    → shown h (list_tokens now (entries tokens objects))
      ≡ listed_metadata now (find_token h tokens objects)
unfolding entries has get list_tokens
shown-listed now h [] objects = refl
shown-listed now h ((g, u) ∷ tokens) objects =
    shown-with_token now h g (get Text-discrete g objects) (entries tokens objects)
    ∙ again now h g (list_tokens now (entries tokens objects)) tokens objects u
        (shown-listed now h tokens objects)

-- `listTokens` shows of a hash the metadata of its token if the map has the token, it is not
-- marked as revoked, and it has no expiry or one that is not in the past; it shows nothing of any
-- other hash.
pub list_tokens_exact :
    (now : ℕ) (h : Text) (tokens : TokenMap) (objects : List (Text × StoredToken))
    → shown h (list_tokens now (entries tokens objects))
      ≡ active_metadata now (find_token h tokens objects)
list_tokens_exact now h tokens objects =
    shown-listed now h tokens objects ∙ listed-active now (find_token h tokens objects)

-- Newest first.
abbrev pub IsNewestFirst : List StatusItem → Type 0
IsNewestFirst [] = Unit
IsNewestFirst (i ∷ []) = Unit
IsNewestFirst (i ∷ j ∷ js) =
    (j.metadata.created_at ≤ i.metadata.created_at) × IsNewestFirst (j ∷ js)

insert_newest-IsNewestFirst :
    (i : StatusItem) (js : List StatusItem) → IsNewestFirst js → IsNewestFirst (insert_newest i js)
unfolding insert_newest
insert_newest-IsNewestFirst i [] h = tt
insert_newest-IsNewestFirst i (j ∷ []) h = ground arith
insert_newest-IsNewestFirst i (j ∷ k ∷ js) h =
    ground (arith, insert_newest-IsNewestFirst i (k ∷ js))

pub list_all_tokens-IsNewestFirst :
    (now : ℕ) (es : List (Text × StoredToken)) → IsNewestFirst (list_all_tokens now es)
unfolding list_all_tokens
list_all_tokens-IsNewestFirst now [] = tt
list_all_tokens-IsNewestFirst now ((h, t) ∷ es) =
    insert_newest-IsNewestFirst _ (list_all_tokens now es) (list_all_tokens-IsNewestFirst now es)
