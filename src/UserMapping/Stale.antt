-- ===== src/UserMapping/Stale.antt =====
-- The cache of rules, when they are loaded and when they change
-- (src/auth/user-mapping/user-mapping-service.ts).
use personal_knowledge_mcp.Base.{
  List, Option, Text, [], ap, none, refl, some, subst, sym, true, ℕ, ℕ_discrete, ◌∷◌, ◌≡◌,
}
use personal_knowledge_mcp.JsMap.Defs.{get}
use personal_knowledge_mcp.UserMapping.Chosen.{Decides, first_match-Decides}
use personal_knowledge_mcp.UserMapping.Service.{
  MappingService, NormalizedClaims, Reply, UserMappingRule, UserMappingSettings, first_match,
  load_ends, mapping_of, resolve, resolve_mapping, resolved, rules_changed, rules_loaded, run,
  sorted_active_rules, step,
}

module _ (to_lower_case : Text → Text) (settings : UserMappingSettings) where
  -- The reply is that of the rule which should decide among the rules.
  abbrev pub Answers : List UserMappingRule → NormalizedClaims → ℕ → List (ℕ × Reply) → Type 0
  Answers rules claims n out =
      (o : Option UserMappingRule) × Decides to_lower_case claims rules o
      × (out ≡ (n, resolved (mapping_of to_lower_case settings o)) ∷ [])

  -- A service whose cache, if there is one, is made of these rules.
  cached-Answers :
      (rules : List UserMappingRule) (claims : NormalizedClaims) (s : MappingService)
      → settings.enabled ≡ true
      → s.sorted_rules_cache ≡ some (sorted_active_rules rules)
      → Answers rules claims s.next (step to_lower_case settings (resolve claims) s).1
  unfolding step resolve_mapping
  cached-Answers rules claims s on e = (
    first_match to_lower_case claims (sorted_active_rules rules),
    first_match-Decides to_lower_case claims rules,
    rw (on, e),
  )

  load-lem :
      (rules : List UserMappingRule) (n : ℕ) (claims : NormalizedClaims) (s : MappingService)
      → get ℕ_discrete n s.flights ≡ some claims
      → step to_lower_case settings (rules_loaded n rules) s
        ≡ load_ends to_lower_case settings n rules (some claims) s
  unfolding step
  load-lem rules n claims s e = ap (λ o. load_ends to_lower_case settings n rules o s) e

  -- With the mapping enabled, when the rules that a call of `resolveMapping` waits for are
  -- loaded, this call and any call right after it answer by the rule that decides for their
  -- claims among these rules: an enabled rule that matches, all matching enabled rules before it
  -- having a lower priority and those after it at most its own; or by the defaults, if no enabled
  -- rule matches.
  pub resolution_exact :
      (rules : List UserMappingRule) (n : ℕ) (claims later : NormalizedClaims) (s : MappingService)
      → settings.enabled ≡ true
      → get ℕ_discrete n s.flights ≡ some claims
      → Answers rules claims n (step to_lower_case settings (rules_loaded n rules) s).1
        × Answers rules later s.next
            (step to_lower_case settings
              (resolve later)
              (step to_lower_case settings (rules_loaded n rules) s).0).1
  resolution_exact rules n claims later s on e = (
    (
      first_match to_lower_case claims (sorted_active_rules rules),
      first_match-Decides to_lower_case claims rules,
      ap (λ r. r.1) (load-lem rules n claims s e),
    ),
    subst (λ r. Answers rules later s.next (step to_lower_case settings (resolve later) r.0).1)
        (sym (load-lem rules n claims s e))
        (cached-Answers rules later (load_ends to_lower_case settings n rules (some claims) s).0 on
          refl),
  )

  -- With the mapping enabled, if the rules change while a call of `resolveMapping` waits for them
  -- to be loaded, and this load then answers, a later call is answered by the rules of this load,
  -- without another one.
  pub change_forgotten :
      (rules : List UserMappingRule) (n : ℕ) (claims later : NormalizedClaims) (s : MappingService)
      → settings.enabled ≡ true
      → get ℕ_discrete n s.flights ≡ some claims
      → Answers rules later s.next
          (step to_lower_case settings
            (resolve later)
            (run to_lower_case settings (rules_changed ∷ rules_loaded n rules ∷ []) s).0).1
  unfolding run step
  change_forgotten rules n claims later s on e =
      (resolution_exact rules n claims later (record s { sorted_rules_cache = none }) on e).1
