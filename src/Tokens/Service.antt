-- ===== src/Tokens/Service.antt =====
-- `TokenServiceImpl` (src/auth/token-service.ts): each operation up to where it waits for its copy
-- of the map, from there to where it waits for the save, and the end of the save.
use personal_knowledge_mcp.Base.{
  Bool, List, Option, Text, [], false, if◌then◌else◌, ltb, none, or_default, some, true, ℕ,
  ℕ_discrete, ◌++◌, ◌+◌, ◌∷◌,
}
use personal_knowledge_mcp.JsMap.Defs.{delete, get, set}
use personal_knowledge_mcp.Tokens.Store.{
  Flight, Purpose, Reply, Task, Text-discrete, TokenMap, TokenStore, add_token, answer, change,
  check_token, expired, find_token, generated, generation_error, has_token, invalid, land,
  load_tokens, loaded, mark_revoked, new_token, not_found, not_valid, remove_token, revoked,
  save_tokens, saving, storage_error, usage_stats, valid, validation, validation_error,
  write_object,
}
use personal_knowledge_mcp.Tokens.Validation.{
  GenerateTokenParams, StoredToken, TokenMetadata, ValidatedParams, is_raw_token, is_token_hash,
  new_metadata, parse_params,
}

abbrev pub is_expired : ℕ → TokenMetadata → Bool
is_expired now m = elim m.expires_at [ none ↦ false | some t ↦ ltb t now ]

module _ (sha256 : Text → Text) where
  -- The calls.
  unfoldable pub new_call :
      ℕ → Text → Option ValidatedParams → TokenStore → TokenStore × List (ℕ × Reply)
  new_call now raw none s = (s, (s.next, validation_error) ∷ [])
  new_call now raw (some p) s = (load_tokens (add_token (sha256 raw) (new_metadata now p)) s, [])

  unfoldable pub generate_token :
      ℕ → Text → GenerateTokenParams → TokenStore → TokenStore × List (ℕ × Reply)
  unfolding parse_params new_call
  generate_token now raw params s = new_call now raw (parse_params params) s

  unfoldable pub validate_token : Text → TokenStore → TokenStore × List (ℕ × Reply)
  unfolding is_raw_token
  validate_token raw s =
      if is_raw_token raw
      then (load_tokens (check_token (sha256 raw)) s, [])
      else (s, (s.next, validation (sha256 raw) (not_valid invalid)) ∷ [])

unfoldable pub revoke_token : Text → TokenStore → TokenStore × List (ℕ × Reply)
unfolding is_token_hash
revoke_token hash s =
    if is_token_hash hash
    then (load_tokens (mark_revoked hash) s, [])
    else (s, (s.next, answer false) ∷ [])

unfoldable pub delete_token : Text → TokenStore → TokenStore × List (ℕ × Reply)
unfolding is_token_hash
delete_token hash s =
    if is_token_hash hash
    then (load_tokens (remove_token hash) s, [])
    else (s, (s.next, answer false) ∷ [])

-- `updateUsageStats`, up to its save.
abbrev pub used : ℕ → StoredToken → StoredToken
used now t = record t {
  metadata = record t.metadata {
    last_used_at = some now;
    use_count = some (or_default t.metadata.use_count 0 + 1);
  };
}

unfoldable pub checked :
    ℕ → ℕ → Text → TokenMap → Option StoredToken → TokenStore → TokenStore × List (ℕ × Reply)
checked now n hash tokens none s = (land n s, (n, validation hash (not_valid not_found)) ∷ [])
checked now n hash tokens (some t) s =
    if t.revoked
    then (land n s, (n, validation hash (not_valid revoked)) ∷ [])
    else if is_expired now t.metadata
    then (land n s, (n, validation hash (not_valid expired)) ∷ [])
    else (
      save_tokens n tokens usage_stats (write_object hash (used now t) s),
      (n, validation hash (valid (used now t).metadata)) ∷ [],
    )

unfoldable pub revoked_at :
    ℕ → ℕ → Text → TokenMap → Option StoredToken → TokenStore → TokenStore × List (ℕ × Reply)
revoked_at now n hash tokens none s = (land n s, (n, answer false) ∷ [])
revoked_at now n hash tokens (some t) s = (
  save_tokens n tokens change
      (write_object hash (record t { revoked = true; revoked_at = some now }) s),
  [],
)

-- What a call does with its copy of the map.
unfoldable pub continue_task : ℕ → ℕ → Task → TokenMap → TokenStore → TokenStore × List (ℕ × Reply)
unfolding checked revoked_at
continue_task now n (add_token hash m) tokens s = (
  save_tokens n (set Text-discrete hash tt tokens) (new_token hash m) (
      write_object hash
        (record { token_hash = hash; metadata = m; revoked = false; revoked_at = none }) s),
  [],
)
continue_task now n (check_token hash) tokens s =
    checked now n hash tokens (find_token hash tokens s.objects) s
continue_task now n (mark_revoked hash) tokens s =
    revoked_at now n hash tokens (find_token hash tokens s.objects) s
continue_task now n (remove_token hash) tokens s =
    if has_token hash tokens
    then (save_tokens n (delete Text-discrete hash tokens) change s, [])
    else (land n s, (n, answer false) ∷ [])

-- What is replied at the end of a save that succeeds, and of one that fails.
abbrev pub save_reply : Bool → ℕ → Purpose → List (ℕ × Reply)
save_reply true n (new_token hash m) = (n, generated hash m) ∷ []
save_reply true n change = (n, answer true) ∷ []
save_reply true n usage_stats = []
save_reply false n (new_token hash m) = (n, generation_error) ∷ []
save_reply false n change = (n, storage_error) ∷ []
save_reply false n usage_stats = []

-- The end of a save. Only one that succeeds sets the cache.
unfoldable pub end_save : Bool → ℕ → Flight → TokenStore → TokenStore × List (ℕ × Reply)
end_save written n (loaded task tokens) s = (s, [])
end_save written n (saving tokens purpose) s = (
  land n (if written then record s { token_cache = tokens } else s),
  save_reply written n purpose,
)

unfoldable pub proceed : ℕ → ℕ → Flight → TokenStore → TokenStore × List (ℕ × Reply)
unfolding continue_task
proceed now n (loaded task tokens) s = continue_task now n task tokens s
proceed now n (saving tokens purpose) s = (s, [])

abbrev pub at_flight :
    (Flight → TokenStore → TokenStore × List (ℕ × Reply))
    → Option Flight
    → TokenStore
    → TokenStore × List (ℕ × Reply)
at_flight act none s = (s, [])
at_flight act (some f) s = act f s

-- A call, a call that has its copy of the map, a save that ends.
pub data Event : Type 0 where
  generate : Text → GenerateTokenParams → Event
  validate revoke remove : Text → Event
  continues : ℕ → Event
  saved : ℕ → Bool → Event

module _ (sha256 : Text → Text) where
  unfoldable pub step : ℕ → Event → TokenStore → TokenStore × List (ℕ × Reply)
  unfolding generate_token validate_token revoke_token delete_token proceed end_save
  step now (generate raw params) s = generate_token sha256 now raw params s
  step now (validate raw) s = validate_token sha256 raw s
  step now (revoke hash) s = revoke_token hash s
  step now (remove hash) s = delete_token hash s
  step now (continues n) s = at_flight (proceed now n) (get ℕ_discrete n s.flights) s
  step now (saved n written) s = at_flight (end_save written n) (get ℕ_discrete n s.flights) s

  unfoldable pub run : List (ℕ × Event) → TokenStore → TokenStore × List (ℕ × Reply)
  unfolding step
  run [] s = (s, [])
  run ((now, e) ∷ es) s =
      let (s1, out) = step now e s in let (s2, rest) = run es s1 in (s2, out ++ rest)
