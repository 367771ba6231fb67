-- ===== src/Migrations/Again.antt =====
-- The same run once more (src/graph/migration/MigrationRunner.ts).
use personal_knowledge_mcp.Base.{Bool, List, Text, [], none, refl, true, ◌∷◌, ◌≡◌}
use personal_knowledge_mcp.Migrations.Migrate.{Fallible, all_semver, can_sort, highest, ok}
use personal_knowledge_mcp.Migrations.Registry.{SchemaMigration}
use personal_knowledge_mcp.Migrations.Reports.{Reports, already}
use personal_knowledge_mcp.Migrations.Runner.{Client, Database, MigrationOptions, MigrationResult}

module _ {V W : Type 0} (client : Client V W) (dec : Discrete V) (le : V → V → Bool)
    (is_semver : V → Bool) where
  pub can_sort-semver :
      ((v : V) → is_semver v ≡ true) → (rows : List (V × Text)) → can_sort le is_semver rows ≡ true
  can_sort-semver all [] = refl
  can_sort-semver all (row ∷ []) = refl
  can_sort-semver all (row ∷ next ∷ rows) = all_semver-lem (row ∷ next ∷ rows)
    where
      all_semver-lem : (rows : List (V × Text)) → all_semver le is_semver rows ≡ true
      all_semver-lem [] = refl
      all_semver-lem ((v, d) ∷ rows) = rw (all v) (all_semver-lem rows)

  -- A run for which nothing is left.
  abbrev Rests :
      MigrationOptions V
      → List (SchemaMigration V)
      → List (V × Text)
      → Database V W × Fallible V (MigrationResult V)
      → Type 0
  Rests o ms vs (db, r) =
      (db.versions ≡ vs)
      × (r
          ≡ ok (record {
            success = true;
            applied = [];
            skipped = already client dec le is_semver vs ms;
            current_version = highest le is_semver vs;
            error = none;
            dry_run = o.dry_run;
          }))
