-- ===== src/Tokens/Races.antt =====
-- A save that ends after another one brings back the map that it was given
-- (src/auth/token-service.ts, src/auth/token-store.ts).
use personal_knowledge_mcp.Base.{
  Text, [], arith, false, refl, some, true, ℕ, ℕ_discrete, ◌∙◌, ◌∷◌, ◌≡◌, ◌≢◌,
}
use personal_knowledge_mcp.JsMap.Defs.{delete, get, set}
use personal_knowledge_mcp.JsMap.Laws.{get-delete_ne, get-set_ne, get-set_self, has-delete}
use personal_knowledge_mcp.Tokens.Service.{
  continue_task, continues, end_save, proceed, run, saved, step,
}
use personal_knowledge_mcp.Tokens.Store.{
  Flight, Text-discrete, TokenMap, TokenStore, answer, change, generated, has_token, loaded,
  new_token, remove_token, saving, usage_stats,
}
use personal_knowledge_mcp.Tokens.Validation.{TokenMetadata}

other_flight :
    (n k : ℕ) (f : Flight) (s : TokenStore)
    → n ≢ k
    → get ℕ_discrete n (delete ℕ_discrete k (set ℕ_discrete k f s.flights))
      ≡ get ℕ_discrete n s.flights
other_flight n k f s ne =
    get-delete_ne ℕ_discrete k n (set ℕ_discrete k f s.flights) ne
    ∙ get-set_ne ℕ_discrete k n f s.flights ne

has-delete_self : (h : Text) (m : TokenMap) → has_token h (delete Text-discrete h m) ≡ false
has-delete_self h m = ground (arith, has-delete Text-discrete h h m)

module _ (sha256 : Text → Text) where
  -- While a validation still saves its usage statistics with a map that has a token,
  -- `deleteToken` takes the token out of the cache and answers that it is deleted; when the save
  -- of the statistics then ends, the token is in the cache again.
  pub deleted_token_returns :
      (h : Text) (n k now end late : ℕ) (tokens : TokenMap) (s : TokenStore)
      → n ≢ k
      → get ℕ_discrete n s.flights ≡ some (saving tokens usage_stats)
      → get ℕ_discrete k s.flights ≡ some (loaded (remove_token h) s.token_cache)
      → has_token h tokens ≡ true
      → has_token h s.token_cache ≡ true
      → (has_token h (run sha256 ((now, continues k) ∷ (end, saved k true) ∷ []) s).0.token_cache
          ≡ false)
        × (has_token h
              (run sha256
                ((now, continues k) ∷ (end, saved k true) ∷ (late, saved n true) ∷ [])
                s).0.token_cache
            ≡ true)
        × ((run sha256 ((now, continues k) ∷ (end, saved k true) ∷ (late, saved n true) ∷ []) s).1
            ≡ (k, answer true) ∷ [])
  unfolding run step proceed continue_task end_save
  deleted_token_returns h n k now end late tokens s ne e f old new =
      rw
        (
          f,
          new,
          get-set_self ℕ_discrete k (saving (delete Text-discrete h s.token_cache) change)
              s.flights,
          other_flight n k (saving (delete Text-discrete h s.token_cache) change) s ne,
          e,
        )
        (has-delete_self h s.token_cache, old, refl)

  -- If a save of usage statistics, begun with a map that does not have a new token, ends after
  -- the save of this token, then the token has been given to the caller, and the cache does not
  -- have it.
  pub new_token_lost :
      (h : Text) (m : TokenMetadata) (n k end late : ℕ) (new old : TokenMap) (s : TokenStore)
      → n ≢ k
      → get ℕ_discrete n s.flights ≡ some (saving old usage_stats)
      → get ℕ_discrete k s.flights ≡ some (saving new (new_token h m))
      → has_token h old ≡ false
      → (run sha256 ((end, saved k true) ∷ (late, saved n true) ∷ []) s).1 ≡ (k, generated h m) ∷ []
        × (has_token h
              (run sha256 ((end, saved k true) ∷ (late, saved n true) ∷ []) s).0.token_cache
            ≡ false)
  unfolding run step end_save
  new_token_lost h m n k end late new old s ne e f gone =
      rw (f, get-delete_ne ℕ_discrete k n s.flights ne, e) (refl, gone)
