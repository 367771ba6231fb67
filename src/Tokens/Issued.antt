-- ===== src/Tokens/Issued.antt =====
-- A token that has just been generated (src/auth/token-service.ts).
use personal_knowledge_mcp.Base.{
  List, Text, [], ap, append-nil, append_assoc, arith, false, if_pos, if◌then◌else◌, none, refl,
  some, sym, true, ℕ, ◌++◌, ◌+◌, ◌∙◌, ◌∷◌, ◌≡◌,
}
use personal_knowledge_mcp.JsMap.Defs.{set}
use personal_knowledge_mcp.Tokens.Finds.{delete-one, find-set, get-one, idle, set-one}
use personal_knowledge_mcp.Tokens.Service.{
  Event, checked, continue_task, continues, end_save, generate, generate_token, is_expired,
  new_call, proceed, run, saved, step, validate, validate_token,
}
use personal_knowledge_mcp.Tokens.Store.{
  Text-discrete, TokenMap, TokenStore, TokenValidationResult, add_token, check_token, expired,
  find_token, generated, load_tokens, loaded, new_token, not_valid, saving, valid, validation,
}
use personal_knowledge_mcp.Tokens.Validation.{
  GenerateTokenParams, StoredToken, TokenMetadata, ValidatedParams, is_raw_token, new_metadata,
  parse_params,
}

-- The metadata that the first validation returns.
abbrev pub first_used : ℕ → TokenMetadata → TokenMetadata
first_used now m = record m { last_used_at = some now; use_count = some 1 }

abbrev pub first_verdict : ℕ → TokenMetadata → TokenValidationResult
first_verdict now m = if is_expired now m then not_valid expired else valid (first_used now m)

find-set_self :
    (h : Text) (t : StoredToken) (tokens : TokenMap) (objects : List (Text × StoredToken))
    → find_token h (set Text-discrete h tt tokens) (set Text-discrete h t objects) ≡ some t
find-set_self h t tokens objects =
    find-set h h t tokens objects
    ∙ if_pos (Text-discrete h h) refl (some t) (find_token h tokens objects)

run-append :
    (sha256 : Text → Text) (a b : List (ℕ × Event)) (s : TokenStore)
    → (run sha256 (a ++ b) s).1 ≡ (run sha256 a s).1 ++ (run sha256 b (run sha256 a s).0).1
unfolding run
run-append sha256 [] b s = refl
run-append sha256 ((now, e) ∷ a) b s =
    ap (◌++◌ (step sha256 now e s).1) (run-append sha256 a b (step sha256 now e s).0)
    ∙ sym (
        append_assoc (step sha256 now e s).1 (run sha256 a (step sha256 now e s).0).1
          (run sha256 b (run sha256 a (step sha256 now e s).0).0).1)

module _ (sha256 : Text → Text) (raw : Text) (cache : TokenMap)
    (objects : List (Text × StoredToken)) (n : ℕ) where
  abbrev issued_token : TokenMetadata → StoredToken
  issued_token m = record {
    token_hash = sha256 raw;
    metadata = m;
    revoked = false;
    revoked_at = none;
  }

  -- The store once the new token is saved.
  abbrev after_issue : TokenMetadata → TokenStore
  after_issue m =
      idle (set Text-discrete (sha256 raw) tt cache)
        (set Text-discrete (sha256 raw) (issued_token m) objects) (n + 1)

  issue-lem :
      (now later end : ℕ) (params : GenerateTokenParams) (p : ValidatedParams)
      → parse_params params ≡ some p
      → run sha256
          ((now, generate raw params) ∷ (later, continues n) ∷ (end, saved n true) ∷ [])
          (idle cache objects n)
        ≡ (after_issue (new_metadata now p), (n, generated (sha256 raw) (new_metadata now p)) ∷ [])
  unfolding run step generate_token new_call proceed continue_task end_save
  issue-lem now later end params p e =
      let task = add_token (sha256 raw) (new_metadata now p) in
      let save =
        saving (set Text-discrete (sha256 raw) tt cache)
          (new_token (sha256 raw) (new_metadata now p)) in
      rw (
        e,
        get-one n (loaded task cache),
        set-one n (loaded task cache) save,
        get-one n save,
        delete-one n save,
      )

  checked-first :
      (later : ℕ) (m : TokenMetadata) (k : ℕ) (tokens : TokenMap) (s : TokenStore)
      → m.use_count ≡ some 0
      → (checked later k (sha256 raw) tokens (some (issued_token m)) s).1
        ≡ (k, validation (sha256 raw) (first_verdict later m)) ∷ []
  unfolding checked
  checked-first later m k tokens s e = ground (arith)

  validate-lem :
      (now later : ℕ) (m : TokenMetadata)
      → is_raw_token raw ≡ true
      → m.use_count ≡ some 0
      → (run sha256 ((now, validate raw) ∷ (later, continues (n + 1)) ∷ []) (after_issue m)).1
        ≡ (n + 1, validation (sha256 raw) (first_verdict later m)) ∷ []
  unfolding run step validate_token proceed continue_task
  validate-lem now later m ok zero_uses =
      rw
        (
          ok,
          get-one (n + 1)
              (loaded (check_token (sha256 raw)) (set Text-discrete (sha256 raw) tt cache)),
        )
        (rw (find-set_self (sha256 raw) (issued_token m) cache objects) (
          rw append-nil (
            checked-first later m (n + 1) (set Text-discrete (sha256 raw) tt cache)
              (load_tokens (check_token (sha256 raw)) (after_issue m)) zero_uses)))

  -- With no call in flight, a token generated from parameters that the schema accepts, for which
  -- the random bytes make a well-formed raw token, is accepted by the next validation with the
  -- metadata it was given and one use counted, up to its expiry, and refused as expired after
  -- that.
  pub generate-validate :
      (params : GenerateTokenParams) (p : ValidatedParams) (now later end then_ last : ℕ)
      → parse_params params ≡ some p
      → is_raw_token raw ≡ true
      → (run sha256
          ((now, generate raw params)
            ∷ (later, continues n)
            ∷ (end, saved n true)
            ∷ (then_, validate raw)
            ∷ (last, continues (n + 1))
            ∷ [])
          (idle cache objects n)).1
        ≡ (n, generated (sha256 raw) (new_metadata now p))
          ∷ (n + 1, validation (sha256 raw) (first_verdict last (new_metadata now p)))
          ∷ []
  generate-validate params p now later end then_ last e ok =
      run-append sha256
        ((now, generate raw params) ∷ (later, continues n) ∷ (end, saved n true) ∷ [])
        ((then_, validate raw) ∷ (last, continues (n + 1)) ∷ []) (idle cache objects n)
      ∙ ap (λ r. r.1 ++ (run sha256 ((then_, validate raw) ∷ (last, continues (n + 1)) ∷ []) r.0).1)
          (issue-lem now later end params p e)
      ∙ ap (◌++◌ ((n, generated (sha256 raw) (new_metadata now p)) ∷ []))
          (validate-lem then_ last (new_metadata now p) ok refl)
