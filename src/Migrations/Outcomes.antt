-- ===== src/Migrations/Outcomes.antt =====
-- What a run reports and leaves behind (src/graph/migration/MigrationRunner.ts).
use personal_knowledge_mcp.Base.{Bool, List, Option, Text, if◌then◌else◌, none, some}
use personal_knowledge_mcp.Migrations.Migrate.{Fallible, failed, ok}
use personal_knowledge_mcp.Migrations.Registry.{SchemaMigration}
use personal_knowledge_mcp.Migrations.Reports.{Comes, Failure, Reports}
use personal_knowledge_mcp.Migrations.Runner.{
  Client, Database, MigrationOptions, MigrationResult, compare_failed, query_failed,
}

module _ {V W : Type 0} (client : Client V W) (dec : Discrete V) (le : V → V → Bool)
    (is_semver : V → Bool) where
  -- The same of the body of `try`.
  abbrev Tries :
      MigrationOptions V
      → List (SchemaMigration V)
      → List V
      → List (V × Text)
      → Type 0
      → Database V W × Fallible V (MigrationResult V)
      → Type 0
  Tries o sel skipped vs seen (db, failed e) =
      Failure client dec le is_semver o sel vs e db.versions
  Tries o sel skipped vs seen (db, ok r) =
      Comes client dec le is_semver o sel skipped vs db.versions seen r r.error

  abbrev pub read_as : {A : Type 0} → Option Text → Bool → A → Fallible V A
  read_as failure sortable a = elim failure [
    | none ↦ if sortable then ok a else failed compare_failed
    | some e ↦ failed (query_failed e)
  ]
