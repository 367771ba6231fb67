-- ===== src/Tests/Schema.antt =====
-- Migrations on small runs (src/graph/migration/MigrationRunner.ts), with numbers for versions.
use personal_knowledge_mcp.Base.{
  Bool, List, Text, [], arith, codes, false, if◌then◌else◌, leb, ltb, map, none, refl, some, true,
  ℕ, ℕ_discrete, ◌+◌, ◌==◌, ◌∷◌, ◌≡◌,
}
use personal_knowledge_mcp.JsMap.Defs.{get, has, set}
use personal_knowledge_mcp.Migrations.Migrate.{
  entry_of, get_status, highest, migrate, migrations_to_apply, ok, pending_migrations,
  skipped_versions,
}
use personal_knowledge_mcp.Migrations.Ordered.{Extends, register_exact}
use personal_knowledge_mcp.Migrations.Pending.{Omits, status_misses}
use personal_knowledge_mcp.Migrations.Registry.{
  SchemaMigration, get_latest_version, get_migration, insert_sorted, is_registered, last_version,
  matches_format, register, registered, sort_by_version,
}
use personal_knowledge_mcp.Migrations.Reports.{Reports}
use personal_knowledge_mcp.Migrations.Runner.{
  Client, Database, MigrationOptions, MigrationResult, apply_all, apply_migration, compare_failed,
  contains_text, is_already_exists_error, query_failed, run_statements, statement_failed,
}

program : Unit {0}
unfolding register matches_format get_migration sort_by_version insert_sorted migrate
    migrations_to_apply skipped_versions apply_all apply_migration run_statements
    is_already_exists_error contains_text highest last_version get_status get_latest_version get set
    has pending_migrations ℕ_discrete
program = tt

leb_total : (a b : ℕ) → leb a b ≡ false → leb b a ≡ true
leb_total a b h = ground arith

leb_trans : (a b c : ℕ) → leb a b ≡ true → leb b c ≡ true → leb a c ≡ true
leb_trans a b c h k = ground arith

abbrev migration : ℕ → SchemaMigration ℕ
migration v = record {
  version = v;
  description = codes "adds";
  statements = codes "a" ∷ [] ∷ codes "b" ∷ [];
}

abbrev text_of : ℕ → Text
text_of v = (v + 48) ∷ codes ".10.0"

register_run :
    register ℕ_discrete leb text_of (migration 2) (migration 1 ∷ migration 3 ∷ [])
    ≡ registered (migration 1 ∷ migration 2 ∷ migration 3 ∷ [])
unfolding program
register_run = refl

register_exact_example :
    Extends ℕ_discrete leb text_of leb_total leb_trans
      (migration 2)
      (migration 1 ∷ migration 3 ∷ [])
      (register ℕ_discrete leb text_of (migration 2) (migration 1 ∷ migration 3 ∷ []))
unfolding program
register_exact_example =
    register_exact ℕ_discrete leb text_of leb_total leb_trans (migration 2)
      (migration 1 ∷ migration 3 ∷ []) (refl, (refl, tt))

-- The database counts its queries, and the second one finds its constraint there.
abbrev client : Client ℕ ℕ
client = record {
  run_query = λ q w. (w + 1, if w == 1 then some (codes "Index ALREADY EXISTS") else none);
  run_record = λ v w. (w + 1, none);
  run_history = λ w. (w, none);
  run_current = λ w. (w, none);
}

-- The third query fails.
abbrev failing : Client ℕ ℕ
failing = record {
  run_query = λ q w. (w + 1, if w == 3 then some (codes "down") else none);
  run_record = λ v w. (w + 1, none);
  run_history = λ w. (w, none);
  run_current = λ w. (w, none);
}

abbrev empty_database : Database ℕ ℕ
empty_database = record { world = 0; versions = [] }

abbrev options : MigrationOptions ℕ
options = record { dry_run = false; force = false; target_version = none }

abbrev all_migrations : List (SchemaMigration ℕ)
all_migrations = migration 1 ∷ migration 2 ∷ migration 3 ∷ []

abbrev any_semver : ℕ → Bool
any_semver v = true

failing_run :
    (migrate failing ℕ_discrete leb any_semver options all_migrations empty_database).1
    ≡ ok (record {
      success = false;
      applied = [];
      skipped = [];
      current_version = some 1;
      error = some (statement_failed 2 1 (codes "down"));
      dry_run = false;
    })
unfolding program
failing_run = refl

-- A dry run in which the version query fails.
abbrev unreachable : Client ℕ ℕ
unreachable = record client { run_history = λ w. (w, some (codes "unreachable")) }

dry_run_fails :
    (migrate unreachable ℕ_discrete leb any_semver
      (record options { dry_run = true })
      all_migrations
      empty_database).1
    ≡ ok (record {
      success = false;
      applied = [];
      skipped = [];
      current_version = none;
      error = some (query_failed (codes "unreachable"));
      dry_run = true;
    })
unfolding program
dry_run_fails = refl

-- A target that is no version.
bad_target :
    (migrate client ℕ_discrete leb
      (λ v. ltb v 9)
      (record options { target_version = some 9 })
      all_migrations
      empty_database).1
    ≡ ok (record {
      success = false;
      applied = [];
      skipped = [];
      current_version = none;
      error = some compare_failed;
      dry_run = false;
    })
unfolding program
bad_target = refl

abbrev migrated : Database ℕ ℕ
migrated = (migrate client ℕ_discrete leb any_semver options all_migrations empty_database).0

abbrev first_result : MigrationResult ℕ
first_result = record {
  success = true;
  applied = map entry_of all_migrations;
  skipped = [];
  current_version = some 3;
  error = none;
  dry_run = false;
}

-- Version 2 comes in when 3 has been applied.
abbrev third_applied : Database ℕ ℕ
third_applied = record { world = 9; versions = (1, codes "x") ∷ (3, codes "y") ∷ [] }

status_misses_example :
    Omits client ℕ_discrete leb any_semver 2
      (get_status client ℕ_discrete leb any_semver 0 all_migrations third_applied).1
    × ((selected : List (SchemaMigration ℕ)) × (migrations_to_apply client ℕ_discrete leb any_semver
            none third_applied.versions all_migrations
          ≡ ok selected)
        × (is_registered ℕ_discrete 2 selected ≡ true))
unfolding program
status_misses_example =
    status_misses client ℕ_discrete leb any_semver 2 3 0 all_migrations third_applied refl refl refl
      refl
