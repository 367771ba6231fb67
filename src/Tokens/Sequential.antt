-- ===== src/Tokens/Sequential.antt =====
-- The service when one call runs at a time (src/auth/token-service.ts): a map from hashes to
-- tokens.
use personal_knowledge_mcp.Base.{
  Bool, List, Option, Text, [], ap, codes, false, if◌then◌else◌, ite, none, refl, some, true, ℕ,
  ◌∙◌, ◌∷◌, ◌≡◌,
}
use personal_knowledge_mcp.JsMap.Defs.{get}
use personal_knowledge_mcp.Tokens.Finds.{Fits, idle, ite-same, revoke_it, token_at, touch}
use personal_knowledge_mcp.Tokens.Finish.{
  finish, finish-add, finish-check, finish-remove, finish-revoke,
}
use personal_knowledge_mcp.Tokens.Formats.{
  fresh, hash-lem, hex_digits, is_accepted, issued-fresh, issued_as, prefixed_hex, raw-lem,
}
use personal_knowledge_mcp.Tokens.Rules.{after_use, map-after_use}
use personal_knowledge_mcp.Tokens.Service.{
  Event, continues, delete_token, generate, generate_token, new_call, remove, revoke, revoke_token,
  run, saved, step, validate, validate_token,
}
use personal_knowledge_mcp.Tokens.Store.{
  Reply, Task, Text-discrete, TokenMap, TokenStore, answer, check_token, find_token, invalid,
  load_tokens, mark_revoked, not_valid, remove_token, validation, validation_error,
}
use personal_knowledge_mcp.Tokens.Validation.{
  StoredToken, ValidatedParams, is_raw_token, is_token_hash, new_metadata, parse_params,
}
use mathlib.Core.Option

module _ (sha256 : Text → Text) where
  -- What one call should make of the token of a hash.
  abbrev pub spec_token : Text → ℕ → ℕ → Event → Option StoredToken → Option StoredToken
  spec_token h now later (generate raw p) old =
      ite (Text-discrete (sha256 raw) h)
        (if is_accepted p then some (fresh (sha256 raw) now p) else old) old
  spec_token h now later (validate raw) old =
      if prefixed_hex (codes "pk_mcp_") 32 raw
      then ite (Text-discrete (sha256 raw) h) (Option.map (after_use later) old) old
      else old
  spec_token h now later (revoke g) old =
      if hex_digits 64 g
      then ite (Text-discrete g h) (Option.map (revoke_it later) old) old
      else old
  spec_token h now later (remove g) old =
      if hex_digits 64 g then ite (Text-discrete g h) none old else old
  spec_token h now later (continues n) old = old
  spec_token h now later (saved n written) old = old

  -- The same, by the tests and updates of the code.
  abbrev done : Text → ℕ → ℕ → Event → Option StoredToken → Option StoredToken
  done h now later (generate raw params) old =
      ite (Text-discrete (sha256 raw) h) (issued_as (sha256 raw) now (parse_params params) old) old
  done h now later (validate raw) old =
      if is_raw_token raw
      then ite (Text-discrete (sha256 raw) h) (Option.map (touch later) old) old
      else old
  done h now later (revoke g) old =
      if is_token_hash g
      then ite (Text-discrete g h) (Option.map (revoke_it later) old) old
      else old
  done h now later (remove g) old =
      if is_token_hash g then ite (Text-discrete g h) none old else old
  done h now later (continues n) old = old
  done h now later (saved n written) old = old

  done-spec :
      (h : Text) (now later : ℕ) (e : Event) (old : Option StoredToken)
      → done h now later e old ≡ spec_token h now later e old
  done-spec h now later (generate raw p) old =
      ap (λ o. ite (Text-discrete (sha256 raw) h) o old) (issued-fresh (sha256 raw) now p old)
  done-spec h now later (validate raw) old = rw (raw-lem raw, map-after_use later old)
  done-spec h now later (revoke g) old = rw (hash-lem g)
  done-spec h now later (remove g) old = rw (hash-lem g)
  done-spec h now later (continues n) old = refl
  done-spec h now later (saved n written) old = refl

  abbrev rest_of : ℕ → ℕ → ℕ → TokenStore × List (ℕ × Reply) → TokenStore × List (ℕ × Reply)
  rest_of later end n (s, out) = run sha256 ((later, continues n) ∷ (end, saved n true) ∷ []) s

  module _ (h : Text) (later end : ℕ) (cache : TokenMap) (objects : List (Text × StoredToken))
      (n : ℕ) where
    rest-idle :
        (out : List (ℕ × Reply))
        → Fits h (find_token h cache objects) (rest_of later end n (idle cache objects n, out))
    unfolding run step get
    rest-idle out = (refl, refl)

    -- A call whose argument is tested before it waits.
    tested-Fits :
        (b : Bool) (task : Task) (out : List (ℕ × Reply)) (want : Option StoredToken)
        → Fits h want (finish sha256 h later end cache objects n task)
        → Fits h (if b then want else find_token h cache objects) (
            rest_of later end n (
              if b
              then (load_tokens task (idle cache objects n), [])
              else (idle cache objects n, out)))
    tested-Fits true task out want fits = fits
    tested-Fits false task out want fits = rest-idle out

    new_call-Fits :
        (now : ℕ) (raw : Text) (o : Option ValidatedParams)
        → Fits h
            (ite
              (Text-discrete (sha256 raw) h)
              (issued_as (sha256 raw) now o (find_token h cache objects))
              (find_token h cache objects))
            (rest_of later end n (new_call sha256 now raw o (idle cache objects n)))
    unfolding new_call run get
    new_call-Fits now raw none = (
      ite-same (Text-discrete (sha256 raw) h) (find_token h cache objects),
      (rest-idle ((n, validation_error) ∷ [])).1,
    )
    new_call-Fits now raw (some p) =
        finish-add sha256 h later end cache objects n (sha256 raw) (new_metadata now p)

  run-first :
      (now : ℕ) (e : Event) (es : List (ℕ × Event)) (s : TokenStore)
      → (run sha256 ((now, e) ∷ es) s).0 ≡ (run sha256 es (step sha256 now e s).0).0
  unfolding run
  run-first now e es s = refl

  complete-Fits :
      (h : Text) (now later end : ℕ) (e : Event) (cache : TokenMap)
      (objects : List (Text × StoredToken)) (n : ℕ)
      → Fits h
          (done h now later e (find_token h cache objects))
          (rest_of later end n (step sha256 now e (idle cache objects n)))
  unfolding step generate_token validate_token revoke_token delete_token get
  complete-Fits h now later end (generate raw params) cache objects n =
      new_call-Fits h later end cache objects n now raw (parse_params params)
  complete-Fits h now later end (validate raw) cache objects n =
      tested-Fits h later end cache objects n (is_raw_token raw) (check_token (sha256 raw))
        ((n, validation (sha256 raw) (not_valid invalid)) ∷ []) _
        (finish-check sha256 h later end cache objects n (sha256 raw))
  complete-Fits h now later end (revoke g) cache objects n =
      tested-Fits h later end cache objects n (is_token_hash g) (mark_revoked g)
        ((n, answer false) ∷ []) _ (finish-revoke sha256 h later end cache objects n g)
  complete-Fits h now later end (remove g) cache objects n =
      tested-Fits h later end cache objects n (is_token_hash g) (remove_token g)
        ((n, answer false) ∷ []) _ (finish-remove sha256 h later end cache objects n g)
  complete-Fits h now later end (continues k) cache objects n =
      rest-idle h later end cache objects n []
  complete-Fits h now later end (saved k written) cache objects n =
      rest-idle h later end cache objects n []

  -- With no call in flight, a call that runs to the end of its save acts as one step of a map
  -- from hashes to tokens, and leaves no call in flight. Parameters with a trimmed name of 1 to
  -- 100 allowed characters, no empty list and a lifetime of at most a year add a token with these
  -- values or the defaults, no use counted, its expiry the lifetime from now. A raw token of the
  -- prefix and 32 hexadecimal digits whose token is found, not revoked and not past its expiry
  -- has its use count raised by one and its last use set. A hash of 64 digits is marked as
  -- revoked, or removed. Each changes no other hash, and all other calls change nothing.
  pub complete-refines :
      (h : Text) (now later end : ℕ) (e : Event) (cache : TokenMap)
      (objects : List (Text × StoredToken)) (n : ℕ)
      → (token_at h
            (run sha256
              ((now, e) ∷ (later, continues n) ∷ (end, saved n true) ∷ [])
              (idle cache objects n)).0
          ≡ spec_token h now later e (find_token h cache objects))
        × ((run sha256
              ((now, e) ∷ (later, continues n) ∷ (end, saved n true) ∷ [])
              (idle cache objects n)).0.flights
            ≡ [])
  complete-refines h now later end e cache objects n =
      let fits = complete-Fits h now later end e cache objects n in
      rw run-first (fits.0 ∙ done-spec h now later e (find_token h cache objects), fits.1)
