-- ===== src/Tokens/Validation.antt =====
-- The data of tokens (src/auth/types.ts) and the schemas of what comes in
-- (src/auth/validation.ts). A date is its time in milliseconds.
use personal_knowledge_mcp.Base.{
  Bool, List, Option, Text, [], codes, drop, every, false, if◌then◌else◌, is_white, leb, length,
  none, or_default, some, starts_with, trim, true, ℕ, ◌&&◌, ◌*◌, ◌+◌, ◌==◌, ◌||◌, ◌∷◌,
}

pub data TokenScope : Type 0 where
  read write admin : TokenScope

pub data InstanceAccess : Type 0 where
  private_access work_access public_access : InstanceAccess

pub record TokenMetadata : Type 0 where
  pub name : Text
  pub created_at : ℕ
  pub expires_at : Option ℕ
  pub scopes : List TokenScope
  pub instance_access : List InstanceAccess
  pub last_used_at : Option ℕ
  pub use_count : Option ℕ

pub record StoredToken : Type 0 where
  pub token_hash : Text
  pub metadata : TokenMetadata
  pub revoked : Bool
  pub revoked_at : Option ℕ

-- `expiresInSeconds` is none where it is null or left out.
pub record GenerateTokenParams : Type 0 where
  pub name : Text
  pub scopes : Option (List TokenScope)
  pub instance_access : Option (List InstanceAccess)
  pub expires_in_seconds : Option ℕ

pub record ValidatedParams : Type 0 where
  pub name : Text
  pub scopes : List TokenScope
  pub instance_access : List InstanceAccess
  pub expires_in_seconds : Option ℕ

abbrev pub token_prefix : Text
token_prefix = codes "pk_mcp_"

-- `[a-f0-9]`
abbrev pub is_hex : ℕ → Bool
is_hex c = leb b'a' c && leb c b'f' || leb b'0' c && leb c b'9'

unfoldable pub is_raw_token : Text → Bool
is_raw_token raw = starts_with token_prefix raw && length raw == 39 && every is_hex (drop 7 raw)

unfoldable pub is_token_hash : Text → Bool
is_token_hash hash = length hash == 64 && every is_hex hash

-- `[\w\s\-_.]`
abbrev pub is_name_char : ℕ → Bool
is_name_char c =
    leb b'a' c && leb c b'z'
    || leb b'A' c && leb c b'Z'
    || leb b'0' c && leb c b'9'
    || c == b'_'
    || c == b'-'
    || c == b'.'
    || is_white c

unfoldable pub is_token_name : Text → Bool
unfolding is_white
is_token_name name = leb 1 (length name) && leb (length name) 100 && every is_name_char name

abbrev pub is_nonempty {ℓ} : {A : Type ℓ} → List A → Bool
is_nonempty [] = false
is_nonempty (x ∷ xs) = true

abbrev pub is_lifetime : Option ℕ → Bool
is_lifetime none = true
is_lifetime (some n) = leb 1 n && leb n 31536000

-- `GenerateTokenParamsSchema.parse`, with its defaults.
unfoldable pub parse_params : GenerateTokenParams → Option ValidatedParams
unfolding is_token_name trim
parse_params p =
    let name = trim p.name in
    let scopes = or_default p.scopes (read ∷ []) in
    let access = or_default p.instance_access (public_access ∷ []) in
    if is_token_name name
      && is_nonempty scopes
      && is_nonempty access
      && is_lifetime p.expires_in_seconds
    then some (record {
      name = name;
      scopes = scopes;
      instance_access = access;
      expires_in_seconds = p.expires_in_seconds;
    })
    else none

-- The metadata of a new token.
abbrev pub new_metadata : ℕ → ValidatedParams → TokenMetadata
new_metadata now p = record {
  name = p.name;
  created_at = now;
  expires_at = elim p.expires_in_seconds [ none ↦ none | some n ↦ some (now + n * 1000) ];
  scopes = p.scopes;
  instance_access = p.instance_access;
  last_used_at = none;
  use_count = some 0;
}
