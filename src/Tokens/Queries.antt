-- ===== src/Tokens/Queries.antt =====
-- The operations that only read (src/auth/token-service.ts), over the copy of the map that they
-- have loaded, and the tests on the outcome of a validation.
use personal_knowledge_mcp.Base.{
  Bool, List, Option, Text, [], false, if◌then◌else◌, leb, none, not, same_text, some, starts_with,
  true, ℕ, ◌&&◌, ◌||◌, ◌∷◌,
}
use personal_knowledge_mcp.JsMap.Defs.{get}
use personal_knowledge_mcp.Tokens.Service.{is_expired}
use personal_knowledge_mcp.Tokens.Store.{
  Text-discrete, TokenMap, TokenValidationResult, not_valid, valid,
}
use personal_knowledge_mcp.Tokens.Validation.{
  InstanceAccess, StoredToken, TokenMetadata, TokenScope, admin, private_access, public_access,
  read, work_access, write,
}

pub record TokenListItem : Type 0 where
  pub hash : Text
  pub metadata : TokenMetadata

pub record StatusItem : Type 0 where
  pub hash : Text
  pub metadata : TokenMetadata
  pub is_expired_now : Bool
  pub is_revoked : Bool

abbrev pub is_active : ℕ → StoredToken → Bool
is_active now t = not t.revoked && not (is_expired now t.metadata)

abbrev pub same_scope : TokenScope → TokenScope → Bool
same_scope read read = true
same_scope write write = true
same_scope admin admin = true
same_scope a b = false

abbrev pub same_access : InstanceAccess → InstanceAccess → Bool
same_access private_access private_access = true
same_access work_access work_access = true
same_access public_access public_access = true
same_access a b = false

-- `xs.includes(x)` and `required.every(x => xs.includes(x))`.
abbrev pub includes {ℓ} : {A : Type ℓ} → (A → A → Bool) → List A → A → Bool
includes same [] x = false
includes same (y ∷ ys) x = same y x || includes same ys x

abbrev pub includes_all {ℓ} : {A : Type ℓ} → (A → A → Bool) → List A → List A → Bool
includes_all same xs [] = true
includes_all same xs (r ∷ rs) = includes same xs r && includes_all same xs rs

unfoldable pub has_scopes : TokenValidationResult → List TokenScope → Bool
has_scopes (not_valid r) required = false
has_scopes (valid m) required =
    includes same_scope m.scopes admin || includes_all same_scope m.scopes required

unfoldable pub has_instance_access : TokenValidationResult → List InstanceAccess → Bool
has_instance_access (not_valid r) required = false
has_instance_access (valid m) required = includes_all same_access m.instance_access required

-- The entries of the map, in order.
abbrev pub with_token :
    Text → Option StoredToken → List (Text × StoredToken) → List (Text × StoredToken)
with_token h none rest = rest
with_token h (some t) rest = (h, t) ∷ rest

unfoldable pub entries : TokenMap → List (Text × StoredToken) → List (Text × StoredToken)
entries [] objects = []
entries ((h, u) ∷ tokens) objects =
    with_token h (get Text-discrete h objects) (entries tokens objects)

unfoldable pub list_tokens : ℕ → List (Text × StoredToken) → List TokenListItem
list_tokens now [] = []
list_tokens now ((h, t) ∷ es) =
    let rest = list_tokens now es in
    if is_active now t then record { hash = h; metadata = t.metadata } ∷ rest else rest

unfoldable pub find_token_by_name : ℕ → Text → List (Text × StoredToken) → Option TokenListItem
find_token_by_name now name [] = none
find_token_by_name now name ((h, t) ∷ es) =
    let rest = find_token_by_name now name es in
    if is_active now t && same_text t.metadata.name name
    then some (record { hash = h; metadata = t.metadata })
    else rest

unfoldable pub find_token_by_hash_prefix :
    (Text → Text) → Text → List (Text × StoredToken) → List TokenListItem
find_token_by_hash_prefix to_lower_case prefix [] = []
find_token_by_hash_prefix to_lower_case prefix ((h, t) ∷ es) =
    let rest = find_token_by_hash_prefix to_lower_case prefix es in
    if starts_with (to_lower_case prefix) (to_lower_case h)
    then record { hash = h; metadata = t.metadata } ∷ rest
    else rest

-- The stable sort by the date of creation, newest first.
unfoldable pub insert_newest : StatusItem → List StatusItem → List StatusItem
insert_newest i [] = i ∷ []
insert_newest i (j ∷ js) =
    let rest = insert_newest i js in
    if leb j.metadata.created_at i.metadata.created_at then i ∷ j ∷ js else j ∷ rest

unfoldable pub list_all_tokens : ℕ → List (Text × StoredToken) → List StatusItem
unfolding insert_newest
list_all_tokens now [] = []
list_all_tokens now ((h, t) ∷ es) =
    insert_newest
      (record {
        hash = h;
        metadata = t.metadata;
        is_expired_now = is_expired now t.metadata;
        is_revoked = t.revoked;
      })
      (list_all_tokens now es)
