-- ===== src/Tokens/Revoked.antt =====
-- A revoked token is refused for good (src/auth/token-service.ts), whatever saves overlap or fail.
use personal_knowledge_mcp.Base.{
  List, Option, Text, [], false, if-elim, if_neg, none, refl, some, true, ℕ, ℕ_discrete, ◌∙◌, ◌∷◌,
  ◌≡◌, ◌≢◌,
}
use personal_knowledge_mcp.JsMap.Defs.{get}
use personal_knowledge_mcp.Tokens.Guarded.{
  at_flight-Refuses, end_save-Refuses, load_tokens-IsRevoked, proceed-Refuses,
}
use personal_knowledge_mcp.Tokens.Marked.{
  IsRevoked, Refuses, accepts, accepts-append, any_adds, any_adds-get, revoked_in-set_self,
  save_tokens-IsRevoked,
}
use personal_knowledge_mcp.Tokens.Service.{
  Event, continue_task, continues, delete_token, end_save, generate, generate_token, new_call,
  proceed, remove, revoke, revoke_token, revoked_at, run, saved, step, validate, validate_token,
}
use personal_knowledge_mcp.Tokens.Store.{
  Text-discrete, TokenMap, TokenStore, add_token, change, check_token, find_token, loaded,
  mark_revoked, remove_token, save_tokens, write_object,
}
use personal_knowledge_mcp.Tokens.Validation.{
  StoredToken, ValidatedParams, is_raw_token, is_token_hash, new_metadata, parse_params,
}

module _ (sha256 : Text → Text) where
  -- The event does not generate a token of the hash.
  abbrev pub Avoids : Text → Event → Type 0
  Avoids h (generate raw params) = sha256 raw ≢ h
  Avoids h (validate raw) = Unit
  Avoids h (revoke g) = Unit
  Avoids h (remove g) = Unit
  Avoids h (continues n) = Unit
  Avoids h (saved n written) = Unit

  abbrev pub AllAvoid : Text → List (ℕ × Event) → Type 0
  AllAvoid h [] = Unit
  AllAvoid h ((now, e) ∷ es) = Avoids h e × AllAvoid h es

  new_call-Refuses :
      (h : Text) (now : ℕ) (raw : Text) (o : Option ValidatedParams) (s : TokenStore)
      → IsRevoked h s
      → sha256 raw ≢ h
      → Refuses h (new_call sha256 now raw o s)
  unfolding new_call
  new_call-Refuses h now raw none s r k = (r, refl)
  new_call-Refuses h now raw (some p) s r k = (
    load_tokens-IsRevoked h (add_token (sha256 raw) (new_metadata now p)) s r
        (if_neg (Text-discrete (sha256 raw) h) k true false),
    refl,
  )

  step-Refuses :
      (h : Text) (now : ℕ) (e : Event) (s : TokenStore)
      → IsRevoked h s
      → Avoids h e
      → Refuses h (step sha256 now e s)
  unfolding step generate_token validate_token revoke_token delete_token
  step-Refuses h now (generate raw params) s r k =
      new_call-Refuses h now raw (parse_params params) s r k
  step-Refuses h now (validate raw) s r k =
      if-elim (Refuses h) (is_raw_token raw) _ _
        (λ e. (load_tokens-IsRevoked h (check_token (sha256 raw)) s r refl, refl)) (λ e. (r, refl))
  step-Refuses h now (revoke g) s r k =
      if-elim (Refuses h) (is_token_hash g) _ _
        (λ e. (load_tokens-IsRevoked h (mark_revoked g) s r refl, refl)) (λ e. (r, refl))
  step-Refuses h now (remove g) s r k =
      if-elim (Refuses h) (is_token_hash g) _ _
        (λ e. (load_tokens-IsRevoked h (remove_token g) s r refl, refl)) (λ e. (r, refl))
  step-Refuses h now (continues n) s r k =
      at_flight-Refuses h (proceed now n) (get ℕ_discrete n s.flights) s r
        λ f e. proceed-Refuses h now n f s r (any_adds-get h n f s.flights r.unadded e)
  step-Refuses h now (saved n written) s r k =
      at_flight-Refuses h (end_save written n) (get ℕ_discrete n s.flights) s r
        λ f e. end_save-Refuses h written n f s r

  -- exact
  pub run-refuses :
      (h : Text) (es : List (ℕ × Event)) (s : TokenStore)
      → IsRevoked h s
      → AllAvoid h es
      → IsRevoked h (run sha256 es s).0 × (accepts h (run sha256 es s).1 ≡ false)
  unfolding run
  run-refuses h [] s r k = (r, refl)
  run-refuses h ((now, e) ∷ es) s r k =
      let first = step-Refuses h now e s r k.0 in
      let rest = run-refuses h es (step sha256 now e s).0 first.0 k.1 in
      (
        rest.0,
        accepts-append h (step sha256 now e s).1 (run sha256 es (step sha256 now e s).0).1
            ∙ rw (first.1, rest.1),
      )

  -- From the moment at which a call of `revokeToken` goes on with a copy of the map in which it
  -- finds the token, no validation accepts a token of this hash: whatever other calls run,
  -- overlap, finish or fail (the save of the revocation too), as long as no call, then or later,
  -- generates a token of the same hash.
  pub revocation_final :
      (h : Text) (now n : ℕ) (tokens : TokenMap) (t : StoredToken) (es : List (ℕ × Event))
      (s : TokenStore)
      → get ℕ_discrete n s.flights ≡ some (loaded (mark_revoked h) tokens)
      → find_token h tokens s.objects ≡ some t
      → any_adds h s.flights ≡ false
      → AllAvoid h es
      → accepts h (run sha256 ((now, continues n) ∷ es) s).1 ≡ false
  unfolding run step proceed continue_task
  revocation_final h now n tokens t es s e found unadded avoid =
      rw (e, found, revoked_at)
        (run-refuses h es
          (save_tokens n tokens change
            (write_object h (record t { revoked = true; revoked_at = some now }) s))
          (save_tokens-IsRevoked h n tokens change
            (write_object h (record t { revoked = true; revoked_at = some now }) s)
            (record {
              in_memory =
                  revoked_in-set_self h (record t { revoked = true; revoked_at = some now })
                    s.objects refl;
              unadded = unadded;
            }))
          avoid).1
