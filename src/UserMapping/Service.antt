-- ===== src/UserMapping/Service.antt =====
-- `UserMappingServiceImpl` (src/auth/user-mapping/user-mapping-service.ts). The rules that the
-- store answers come by an event, and lower case is given.
use personal_knowledge_mcp.Base.{
  Bool, List, Option, Text, [], codes, drop, ends_with, false, filter_by, if◌then◌else◌, leb, none,
  same_text, some, starts_with, true, ℕ, ℕ_discrete, ◌&&◌, ◌++◌, ◌+◌, ◌||◌, ◌∷◌,
}
use personal_knowledge_mcp.JsMap.Defs.{delete, get}
use personal_knowledge_mcp.Tokens.Validation.{InstanceAccess, TokenScope}

pub data MappingRuleType : Type 0 where
  email email_wildcard group role default_rule : MappingRuleType

pub record UserMappingRule : Type 0 where
  pub id : Text
  pub pattern : Text
  pub rule_type : MappingRuleType
  pub scopes : List TokenScope
  pub instance_access : List InstanceAccess
  pub priority : ℕ
  pub enabled : Bool

pub record NormalizedClaims : Type 0 where
  pub sub : Text
  pub email : Option Text
  pub groups : List Text
  pub roles : List Text

pub record ResolvedMapping : Type 0 where
  pub scopes : List TokenScope
  pub instance_access : List InstanceAccess
  pub matched_rule : Option UserMappingRule
  pub is_default : Bool

pub record UserMappingSettings : Type 0 where
  pub enabled : Bool
  pub default_scopes : List TokenScope
  pub default_instance_access : List InstanceAccess

-- `resolveMapping` calls whose rules are being loaded.
pub record MappingService : Type 0 where
  pub sorted_rules_cache : Option (List UserMappingRule)
  pub flights : List (ℕ × NormalizedClaims)
  pub next : ℕ
  pub ready : Bool

pub data Reply : Type 0 where
  resolved : ResolvedMapping → Reply
  not_configured : Reply

module _ (to_lower_case : Text → Text) where
  abbrev pub some_equal : Text → List Text → Bool
  some_equal name [] = false
  some_equal name (g ∷ gs) = same_text (to_lower_case g) name || some_equal name gs

  -- An empty address counts as none.
  abbrev pub matches_exact_email : Text → Option Text → Bool
  matches_exact_email pattern none = false
  matches_exact_email pattern (some []) = false
  matches_exact_email pattern (some (c ∷ address)) =
      same_text (to_lower_case (c ∷ address)) (to_lower_case pattern)

  abbrev pub matches_email_wildcard : Text → Option Text → Bool
  matches_email_wildcard pattern none = false
  matches_email_wildcard pattern (some []) = false
  matches_email_wildcard pattern (some (c ∷ address)) =
      starts_with (codes "*@") pattern
      && ends_with (b'@' ∷ to_lower_case (drop 2 pattern)) (to_lower_case (c ∷ address))

  unfoldable pub matches_rule : UserMappingRule → NormalizedClaims → Bool
  matches_rule rule claims = elim rule.rule_type [
    | email ↦ matches_exact_email rule.pattern claims.email
    | email_wildcard ↦ matches_email_wildcard rule.pattern claims.email
    | group ↦
        starts_with (codes "group:") rule.pattern
        && some_equal (to_lower_case (drop 6 rule.pattern)) claims.groups
    | role ↦
        starts_with (codes "role:") rule.pattern
        && some_equal (to_lower_case (drop 5 rule.pattern)) claims.roles
    | default_rule ↦ same_text rule.pattern (codes "*")
  ]

  -- The loop over the sorted rules.
  unfoldable pub first_match : NormalizedClaims → List UserMappingRule → Option UserMappingRule
  first_match claims [] = none
  first_match claims (rule ∷ rules) =
      let rest = first_match claims rules in if matches_rule rule claims then some rule else rest

-- The stable sort by priority, highest first.
unfoldable pub insert_by_priority : UserMappingRule → List UserMappingRule → List UserMappingRule
insert_by_priority rule [] = rule ∷ []
insert_by_priority rule (x ∷ xs) =
    let rest = insert_by_priority rule xs in
    if leb x.priority rule.priority then rule ∷ x ∷ xs else x ∷ rest

unfoldable pub sort_by_priority : List UserMappingRule → List UserMappingRule
unfolding insert_by_priority
sort_by_priority [] = []
sort_by_priority (rule ∷ rules) = insert_by_priority rule (sort_by_priority rules)

unfoldable pub sorted_active_rules : List UserMappingRule → List UserMappingRule
unfolding sort_by_priority
sorted_active_rules rules = sort_by_priority (filter_by (λ r. r.enabled) rules)

pub data Event : Type 0 where
  resolve : NormalizedClaims → Event
  rules_loaded : ℕ → List UserMappingRule → Event
  rules_changed : Event

module _ (to_lower_case : Text → Text) (settings : UserMappingSettings) where
  abbrev pub mapping_of : Option UserMappingRule → ResolvedMapping
  mapping_of none = record {
    scopes = settings.default_scopes;
    instance_access = settings.default_instance_access;
    matched_rule = none;
    is_default = true;
  }
  mapping_of (some rule) = record {
    scopes = rule.scopes;
    instance_access = rule.instance_access;
    matched_rule = some rule;
    is_default = false;
  }

  abbrev pub resolve_with : NormalizedClaims → List UserMappingRule → Reply
  resolve_with claims rules = resolved (mapping_of (first_match to_lower_case claims rules))

  abbrev pub resolve_from :
      NormalizedClaims
      → Option (List UserMappingRule)
      → MappingService
      → MappingService × List (ℕ × Reply)
  resolve_from claims none s =
      (record s { flights = (s.next, claims) ∷ s.flights; next = s.next + 1 }, [])
  resolve_from claims (some rules) s =
      (record s { next = s.next + 1; ready = true }, (s.next, resolve_with claims rules) ∷ [])

  unfoldable pub resolve_mapping :
      NormalizedClaims → MappingService → MappingService × List (ℕ × Reply)
  unfolding first_match matches_rule
  resolve_mapping claims s =
      if settings.enabled
      then resolve_from claims s.sorted_rules_cache s
      else (s, (s.next, not_configured) ∷ [])

  abbrev pub load_ends :
      ℕ
      → List UserMappingRule
      → Option NormalizedClaims
      → MappingService
      → MappingService × List (ℕ × Reply)
  load_ends n rules none s = (s, [])
  load_ends n rules (some claims) s = (
    record s {
      sorted_rules_cache = some (sorted_active_rules rules);
      flights = delete ℕ_discrete n s.flights;
      ready = true;
    },
    (n, resolve_with claims (sorted_active_rules rules)) ∷ [],
  )

  unfoldable pub step : Event → MappingService → MappingService × List (ℕ × Reply)
  unfolding resolve_mapping sorted_active_rules
  step (resolve claims) s = resolve_mapping claims s
  step (rules_loaded n rules) s = load_ends n rules (get ℕ_discrete n s.flights) s
  step rules_changed s = (record s { sorted_rules_cache = none }, [])

  unfoldable pub run : List Event → MappingService → MappingService × List (ℕ × Reply)
  unfolding step
  run [] s = (s, [])
  run (e ∷ es) s = let (s1, out) = step e s in let (s2, rest) = run es s1 in (s2, out ++ rest)
