-- ===== src/Tests/Identity.antt =====
-- The mapping of users on small runs (src/auth/user-mapping/user-mapping-service.ts).
use personal_knowledge_mcp.Base.{
  List, Text, [], codes, false, none, refl, some, true, ℕ_discrete, ◌∷◌, ◌≡◌,
}
use personal_knowledge_mcp.JsMap.Defs.{delete, get}
use personal_knowledge_mcp.Tokens.Validation.{admin, public_access, read, work_access}
use personal_knowledge_mcp.UserMapping.Service.{
  MappingService, NormalizedClaims, UserMappingRule, UserMappingSettings, email_wildcard,
  first_match, group, insert_by_priority, matches_rule, resolve, resolve_mapping, rules_changed,
  rules_loaded, run, sort_by_priority, sorted_active_rules, step,
}
use personal_knowledge_mcp.UserMapping.Stale.{Answers, change_forgotten, resolution_exact}

program : Unit {0}
unfolding run step resolve_mapping first_match matches_rule sorted_active_rules sort_by_priority
    insert_by_priority get delete ℕ_discrete
program = tt

abbrev lower : Text → Text
lower s = s

abbrev settings : UserMappingSettings
settings = record {
  enabled = true;
  default_scopes = read ∷ [];
  default_instance_access = public_access ∷ [];
}

abbrev staff : UserMappingRule
staff = record {
  id = codes "1";
  pattern = codes "*@a.org";
  rule_type = email_wildcard;
  scopes = read ∷ [];
  instance_access = public_access ∷ [];
  priority = 10;
  enabled = true;
}

abbrev admins : UserMappingRule
admins = record {
  id = codes "2";
  pattern = codes "group:ops";
  rule_type = group;
  scopes = admin ∷ [];
  instance_access = work_access ∷ [];
  priority = 20;
  enabled = true;
}

abbrev both_rules : List UserMappingRule
both_rules = staff ∷ admins ∷ []

abbrev ops_user : NormalizedClaims
ops_user = record {
  sub = codes "u";
  email = some (codes "u@a.org");
  groups = codes "ops" ∷ [];
  roles = [];
}

abbrev loading : MappingService
loading = record {
  sorted_rules_cache = none;
  flights = (0, ops_user) ∷ [];
  next = 1;
  ready = false;
}

ops_decided : first_match lower ops_user (sorted_active_rules both_rules) ≡ some admins
unfolding program
ops_decided = refl

resolution_exact_example :
    Answers lower settings both_rules ops_user 0
      (step lower settings (rules_loaded 0 both_rules) loading).1
    × Answers lower settings both_rules ops_user 1
        (step lower settings
          (resolve ops_user)
          (step lower settings (rules_loaded 0 both_rules) loading).0).1
unfolding program
resolution_exact_example =
    resolution_exact lower settings both_rules 0 ops_user ops_user loading refl refl

change_forgotten_example :
    Answers lower settings both_rules ops_user 1
      (step lower settings
        (resolve ops_user)
        (run lower settings (rules_changed ∷ rules_loaded 0 both_rules ∷ []) loading).0).1
unfolding program
change_forgotten_example =
    change_forgotten lower settings both_rules 0 ops_user ops_user loading refl refl
