-- ===== src/Tests/Access.antt =====
-- Access tokens on small runs (src/auth/token-service.ts, src/auth/token-store.ts).
use personal_knowledge_mcp.Base.{
  List, List-discrete, Text, [], arith, codes, dec_lt, false, is_white, none, refl, some, trim,
  trim_start, true, ℕ, ℕ_discrete, ◌∷◌, ◌≡◌,
}
use personal_knowledge_mcp.JsMap.Defs.{delete, get, has, set}
use personal_knowledge_mcp.Tokens.Finds.{idle, token_at}
use personal_knowledge_mcp.Tokens.Issued.{generate-validate}
use personal_knowledge_mcp.Tokens.Listed.{list_tokens_exact, shown}
use personal_knowledge_mcp.Tokens.Marked.{accepts}
use personal_knowledge_mcp.Tokens.Queries.{entries, list_tokens}
use personal_knowledge_mcp.Tokens.Races.{deleted_token_returns, new_token_lost}
use personal_knowledge_mcp.Tokens.Revoked.{revocation_final}
use personal_knowledge_mcp.Tokens.Sequential.{complete-refines}
use personal_knowledge_mcp.Tokens.Service.{
  checked, continue_task, continues, delete_token, end_save, generate, generate_token, new_call,
  proceed, revoke_token, revoked_at, run, saved, step, used, validate, validate_token,
}
use personal_knowledge_mcp.Tokens.Store.{
  Flight, TokenMap, TokenStore, answer, expired, generated, has_token, loaded, mark_revoked,
  new_token, not_valid, remove_token, saving, usage_stats, validation,
}
use personal_knowledge_mcp.Tokens.Validation.{
  GenerateTokenParams, StoredToken, ValidatedParams, is_raw_token, is_token_hash, is_token_name,
  new_metadata, parse_params, public_access, read, write,
}

program : Unit {0}
unfolding run step proceed continue_task end_save generate_token new_call validate_token
    revoke_token delete_token checked revoked_at parse_params is_raw_token is_token_hash
    is_token_name is_white trim trim_start get set delete has ℕ_discrete List-discrete list_tokens
    entries dec_lt
program = tt

abbrev hash_of : Text → Text
hash_of raw = raw

abbrev raw_token : Text
raw_token = codes "pk_mcp_0123456789abcdef0123456789abcdef"

abbrev params : GenerateTokenParams
params = record {
  name = codes " ci ";
  scopes = some (read ∷ write ∷ []);
  instance_access = none;
  expires_in_seconds = some 60;
}

abbrev parsed : ValidatedParams
parsed = record {
  name = codes "ci";
  scopes = read ∷ write ∷ [];
  instance_access = public_access ∷ [];
  expires_in_seconds = some 60;
}

parse-params : parse_params params ≡ some parsed
unfolding program
parse-params = refl

is_raw_token-raw : is_raw_token raw_token ≡ true
unfolding program
is_raw_token-raw = refl

generate-validate_example :
    (run hash_of
      ((1000, generate raw_token params)
        ∷ (1001, continues 0)
        ∷ (1002, saved 0 true)
        ∷ (2000, validate raw_token)
        ∷ (61001, continues 1)
        ∷ [])
      (idle [] [] 0)).1
    ≡ (0, generated raw_token (new_metadata 1000 parsed))
      ∷ (1, validation raw_token (not_valid expired))
      ∷ []
unfolding program
generate-validate_example =
    generate-validate hash_of raw_token [] [] 0 params parsed 1000 1001 1002 2000 61001 parse-params
      is_raw_token-raw

abbrev stored : StoredToken
stored = record {
  token_hash = raw_token;
  metadata = new_metadata 1000 parsed;
  revoked = false;
  revoked_at = none;
}

abbrev one_token : TokenMap
one_token = (raw_token, tt) ∷ []

abbrev waiting : List (ℕ × Flight) → TokenStore
waiting flights = record {
  token_cache = one_token;
  objects = (raw_token, stored) ∷ [];
  flights = flights;
  next = 2;
}

-- The save of the revocation fails, and the token is refused all the same.
revocation_final_example :
    accepts raw_token
      (run hash_of
        ((5, continues 0) ∷ (6, saved 0 false) ∷ (7, validate raw_token) ∷ (8, continues 2) ∷ [])
        (waiting ((0, loaded (mark_revoked raw_token) one_token) ∷ []))).1
    ≡ false
unfolding program
revocation_final_example =
    revocation_final hash_of raw_token 5 0 one_token stored
      ((6, saved 0 false) ∷ (7, validate raw_token) ∷ (8, continues 2) ∷ [])
      (waiting ((0, loaded (mark_revoked raw_token) one_token) ∷ [])) refl refl refl
      (tt, (tt, (tt, tt)))

complete-refines_example :
    (token_at raw_token
        (run hash_of
          ((1, validate raw_token) ∷ (2, continues 2) ∷ (3, saved 2 true) ∷ [])
          (idle one_token ((raw_token, stored) ∷ []) 2)).0
      ≡ some (used 2 stored))
    × ((run hash_of
          ((1, validate raw_token) ∷ (2, continues 2) ∷ (3, saved 2 true) ∷ [])
          (idle one_token ((raw_token, stored) ∷ []) 2)).0.flights
        ≡ [])
unfolding program
complete-refines_example =
    complete-refines hash_of raw_token 1 2 3 (validate raw_token) one_token
      ((raw_token, stored) ∷ []) 2

deleted_token_returns_example :
    (has_token raw_token
        (run hash_of ((1, continues 1) ∷ (2, saved 1 true) ∷ []) (
          waiting (
            (0, saving one_token usage_stats)
            ∷ (1, loaded (remove_token raw_token) one_token)
            ∷ []))).0.token_cache
      ≡ false)
    × (has_token raw_token
          (run hash_of ((1, continues 1) ∷ (2, saved 1 true) ∷ (3, saved 0 true) ∷ []) (
            waiting (
              (0, saving one_token usage_stats)
              ∷ (1, loaded (remove_token raw_token) one_token)
              ∷ []))).0.token_cache
        ≡ true)
    × ((run hash_of ((1, continues 1) ∷ (2, saved 1 true) ∷ (3, saved 0 true) ∷ []) (
          waiting (
            (0, saving one_token usage_stats)
            ∷ (1, loaded (remove_token raw_token) one_token)
            ∷ []))).1
        ≡ (1, answer true) ∷ [])
unfolding program
deleted_token_returns_example =
    deleted_token_returns hash_of raw_token 0 1 1 2 3 one_token
      (waiting
        ((0, saving one_token usage_stats) ∷ (1, loaded (remove_token raw_token) one_token) ∷ []))
      (omega arith) refl refl refl refl

abbrev other_token : Text
other_token = codes "pk_mcp_ffffffffffffffffffffffffffffffff"

abbrev both_tokens : TokenMap
both_tokens = (raw_token, tt) ∷ (other_token, tt) ∷ []

abbrev two_saves : TokenStore
two_saves = waiting (
    (0, saving one_token usage_stats)
    ∷ (1, saving both_tokens (new_token other_token (new_metadata 1000 parsed)))
    ∷ [])

new_token_lost_example :
    ((run hash_of ((2, saved 1 true) ∷ (3, saved 0 true) ∷ []) two_saves).1
      ≡ (1, generated other_token (new_metadata 1000 parsed)) ∷ [])
    × (has_token other_token
          (run hash_of ((2, saved 1 true) ∷ (3, saved 0 true) ∷ []) two_saves).0.token_cache
        ≡ false)
unfolding program
new_token_lost_example =
    new_token_lost hash_of other_token (new_metadata 1000 parsed) 0 1 2 3 both_tokens one_token
      two_saves (omega arith) refl refl refl

list_tokens_exact_example :
    shown raw_token (list_tokens 61001 (entries one_token ((raw_token, stored) ∷ []))) ≡ none
unfolding program
list_tokens_exact_example = list_tokens_exact 61001 raw_token one_token ((raw_token, stored) ∷ [])
