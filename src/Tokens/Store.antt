-- ===== src/Tokens/Store.antt =====
-- `TokenStoreImpl` (src/auth/token-store.ts) once the file has been loaded. A map from hashes to
-- tokens holds references: copying the map does not copy the tokens, so the tokens stand in one
-- place, `objects`, and a map is the list of its keys. A hash names one token.
use personal_knowledge_mcp.Base.{
  Bool, List, List-discrete, Option, Text, if◌then◌else◌, none, ℕ, ℕ_discrete, ◌+◌, ◌∷◌,
}
use personal_knowledge_mcp.JsMap.Defs.{delete, get, has, set}
use personal_knowledge_mcp.Tokens.Validation.{StoredToken, TokenMetadata}

abbrev pub Text-discrete : Discrete Text
Text-discrete = List-discrete ℕ_discrete

abbrev pub TokenMap : Type 0
TokenMap = List (Text × Unit {0})

abbrev pub has_token : Text → TokenMap → Bool
has_token hash tokens = has Text-discrete hash tokens

-- What a call answers.
pub data Reason : Type 0 where
  invalid not_found revoked expired : Reason

pub data TokenValidationResult : Type 0 where
  valid : TokenMetadata → TokenValidationResult
  not_valid : Reason → TokenValidationResult

pub data Reply : Type 0 where
  generated : Text → TokenMetadata → Reply
  validation : Text → TokenValidationResult → Reply
  answer : Bool → Reply
  validation_error generation_error storage_error : Reply

-- What a call does once it has its copy of the map, and what it is waiting for.
pub data Task : Type 0 where
  add_token : Text → TokenMetadata → Task
  check_token : Text → Task
  mark_revoked : Text → Task
  remove_token : Text → Task

-- What a save is for: a new token, a revocation or deletion, or the usage statistics, for which
-- nobody waits.
pub data Purpose : Type 0 where
  new_token : Text → TokenMetadata → Purpose
  change : Purpose
  usage_stats : Purpose

pub data Flight : Type 0 where
  loaded : Task → TokenMap → Flight
  saving : TokenMap → Purpose → Flight

pub record TokenStore : Type 0 where
  pub token_cache : TokenMap
  pub objects : List (Text × StoredToken)
  pub flights : List (ℕ × Flight)
  pub next : ℕ

abbrev pub find_token : Text → TokenMap → List (Text × StoredToken) → Option StoredToken
find_token hash tokens objects =
    if has_token hash tokens then get Text-discrete hash objects else none

-- The calls of `loadTokens` and of `saveTokens`, up to where they wait. A call keeps its number.
abbrev pub load_tokens : Task → TokenStore → TokenStore
load_tokens task s = record s {
  flights = (s.next, loaded task s.token_cache) ∷ s.flights;
  next = s.next + 1;
}

abbrev pub save_tokens : ℕ → TokenMap → Purpose → TokenStore → TokenStore
save_tokens n tokens purpose s = record s {
  flights = set ℕ_discrete n (saving tokens purpose) s.flights;
}

abbrev pub write_object : Text → StoredToken → TokenStore → TokenStore
write_object hash token s = record s { objects = set Text-discrete hash token s.objects }

abbrev pub land : ℕ → TokenStore → TokenStore
land n s = record s { flights = delete ℕ_discrete n s.flights }
