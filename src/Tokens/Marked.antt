-- ===== src/Tokens/Marked.antt =====
-- What keeps a revoked token revoked, in the store (src/auth/token-service.ts).
-- The token of the hash stands in memory and is revoked.
use personal_knowledge_mcp.Base.{
  Bool, List, Text, [], arith, false, ite, none, refl, some, true, ℕ, ℕ_discrete, ◌++◌, ◌||◌, ◌∷◌,
  ◌≡◌,
}
use personal_knowledge_mcp.JsMap.Defs.{delete, get, set}
use personal_knowledge_mcp.JsMap.Laws.{get-set, get-set_self}
use personal_knowledge_mcp.Tokens.Store.{
  Flight, Purpose, Reply, Text-discrete, TokenMap, TokenStore, add_token, answer, check_token,
  generated, generation_error, land, loaded, mark_revoked, not_valid, remove_token, save_tokens,
  saving, storage_error, valid, validation, validation_error, write_object,
}
use personal_knowledge_mcp.Tokens.Validation.{StoredToken}

abbrev pub revoked_in : Text → List (Text × StoredToken) → Bool
revoked_in h objects = elim (get Text-discrete h objects) [ none ↦ false | some t ↦ t.revoked ]

-- The flight is about to add a token of the hash.
abbrev pub adds : Text → Flight → Bool
adds h (loaded (add_token g m) tokens) = ite (Text-discrete g h) true false
adds h (loaded (check_token g) tokens) = false
adds h (loaded (mark_revoked g) tokens) = false
adds h (loaded (remove_token g) tokens) = false
adds h (saving tokens purpose) = false

abbrev pub any_adds : Text → List (ℕ × Flight) → Bool
any_adds h [] = false
any_adds h ((n, f) ∷ fs) = adds h f || any_adds h fs

-- The replies accept a token of the hash.
abbrev pub accepts : Text → List (ℕ × Reply) → Bool
accepts h [] = false
accepts h ((n, validation g (valid m)) ∷ out) = ite (Text-discrete g h) true (accepts h out)
accepts h ((n, validation g (not_valid r)) ∷ out) = accepts h out
accepts h ((n, generated g m) ∷ out) = accepts h out
accepts h ((n, answer b) ∷ out) = accepts h out
accepts h ((n, validation_error) ∷ out) = accepts h out
accepts h ((n, generation_error) ∷ out) = accepts h out
accepts h ((n, storage_error) ∷ out) = accepts h out

pub any_adds-set :
    (h : Text) (n : ℕ) (f : Flight) (fs : List (ℕ × Flight))
    → adds h f ≡ false
    → any_adds h fs ≡ false
    → any_adds h (set ℕ_discrete n f fs) ≡ false
unfolding set
any_adds-set h n f [] p q = ground arith
any_adds-set h n f ((k, g) ∷ fs) p q = ground (arith, any_adds-set h n f fs)

pub any_adds-delete :
    (h : Text) (n : ℕ) (fs : List (ℕ × Flight))
    → any_adds h fs ≡ false
    → any_adds h (delete ℕ_discrete n fs) ≡ false
unfolding delete
any_adds-delete h n [] q = refl
any_adds-delete h n ((k, g) ∷ fs) q = ground (arith, any_adds-delete h n fs)

pub any_adds-get :
    (h : Text) (n : ℕ) (f : Flight) (fs : List (ℕ × Flight))
    → any_adds h fs ≡ false
    → get ℕ_discrete n fs ≡ some f
    → adds h f ≡ false
unfolding get
any_adds-get h n f [] q e = cc
any_adds-get h n f ((k, g) ∷ fs) q e = ground (arith, any_adds-get h n f fs)

pub accepts-append :
    (h : Text) (a b : List (ℕ × Reply)) → accepts h (a ++ b) ≡ (accepts h a || accepts h b)
accepts-append h [] b = refl
accepts-append h ((n, validation g (valid m)) ∷ a) b = ground (arith, accepts-append h a b)
accepts-append h ((n, validation g (not_valid r)) ∷ a) b = accepts-append h a b
accepts-append h ((n, generated g m) ∷ a) b = accepts-append h a b
accepts-append h ((n, answer c) ∷ a) b = accepts-append h a b
accepts-append h ((n, validation_error) ∷ a) b = accepts-append h a b
accepts-append h ((n, generation_error) ∷ a) b = accepts-append h a b
accepts-append h ((n, storage_error) ∷ a) b = accepts-append h a b

-- The token is revoked, and no flight is about to make another of its hash.
pub record IsRevoked (h : Text) (s : TokenStore) : Type 0 where
  pub in_memory : revoked_in h s.objects ≡ true
  pub unadded : any_adds h s.flights ≡ false

-- What a step keeps.
abbrev pub Refuses : Text → TokenStore × List (ℕ × Reply) → Type 0
Refuses h (s, out) = IsRevoked h s × (accepts h out ≡ false)

pub revoked_in-set :
    (h g : Text) (t : StoredToken) (objects : List (Text × StoredToken))
    → revoked_in h objects ≡ true
    → (g ≡ h → t.revoked ≡ true)
    → revoked_in h (set Text-discrete g t objects) ≡ true
revoked_in-set h g t objects r k = elim (Text-discrete g h) [
  | yes e ↦ ground (arith, k e, get-set Text-discrete g h t objects)
  | no n ↦ ground (arith, get-set Text-discrete g h t objects)
]

pub revoked_in-set_self :
    (h : Text) (t : StoredToken) (objects : List (Text × StoredToken))
    → t.revoked ≡ true
    → revoked_in h (set Text-discrete h t objects) ≡ true
revoked_in-set_self h t objects e = ground (arith, get-set_self Text-discrete h t objects)

pub land-IsRevoked : (h : Text) (n : ℕ) (s : TokenStore) → IsRevoked h s → IsRevoked h (land n s)
land-IsRevoked h n s r = record {
  in_memory = r.in_memory;
  unadded = any_adds-delete h n s.flights r.unadded;
}

pub save_tokens-IsRevoked :
    (h : Text) (n : ℕ) (tokens : TokenMap) (purpose : Purpose) (s : TokenStore)
    → IsRevoked h s
    → IsRevoked h (save_tokens n tokens purpose s)
save_tokens-IsRevoked h n tokens purpose s r = record {
  in_memory = r.in_memory;
  unadded = any_adds-set h n (saving tokens purpose) s.flights refl r.unadded;
}

pub write_object-IsRevoked :
    (h g : Text) (t : StoredToken) (s : TokenStore)
    → IsRevoked h s
    → (g ≡ h → t.revoked ≡ true)
    → IsRevoked h (write_object g t s)
write_object-IsRevoked h g t s r k = record {
  in_memory = revoked_in-set h g t s.objects r.in_memory k;
  unadded = r.unadded;
}
