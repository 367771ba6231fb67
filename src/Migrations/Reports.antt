-- ===== src/Migrations/Reports.antt =====
-- What a run should report and leave behind, said without the code's selection
-- (src/graph/migration/MigrationRunner.ts).
use personal_knowledge_mcp.Base.{
  Bool, List, Option, Text, [], false, filter_by, if◌then◌else◌, map, none, some, true, ◌≡◌, ◌⊎◌,
}
use personal_knowledge_mcp.JsMap.Defs.{has}
use personal_knowledge_mcp.Migrations.Migrate.{Fallible, can_sort, entry_of, failed, ok, version_of}
use personal_knowledge_mcp.Migrations.Registry.{SchemaMigration}
use personal_knowledge_mcp.Migrations.Runner.{
  Client, Database, MigrationError, MigrationOptions, MigrationResult,
}
use personal_knowledge_mcp.Migrations.Runs.{FailsAmong, record_all}
use personal_knowledge_mcp.Migrations.Selection.{IsReadError}

module _ {V W : Type 0} (client : Client V W) (dec : Discrete V) (le : V → V → Bool)
    (is_semver : V → Bool) where
  -- A run fails with an error of reading before it applies anything, or, if it is no dry run, with
  -- the error of a migration among the selected ones, those before it being recorded.
  abbrev pub Failure :
      MigrationOptions V
      → List (SchemaMigration V)
      → List (V × Text)
      → MigrationError V
      → List (V × Text)
      → Type 0
  Failure o sel vs e out =
      (IsReadError e × (out ≡ vs)) ⊎ ((o.dry_run ≡ false) × FailsAmong client dec sel vs e out)

  -- What a run should come to, by the error that it reports.
  abbrev pub Comes :
      MigrationOptions V
      → List (SchemaMigration V)
      → List V
      → List (V × Text)
      → List (V × Text)
      → Type 0
      → MigrationResult V
      → Option (MigrationError V)
      → Type 0
  Comes o sel skipped vs out seen r none =
      (r.success ≡ true)
      × (r.applied ≡ map entry_of sel)
      × (r.skipped ≡ skipped)
      × (out ≡ (if o.dry_run then vs else record_all client dec sel vs))
      × seen
  Comes o sel skipped vs out seen r (some e) =
      (r.success ≡ false) × (r.applied ≡ []) × Failure o sel vs e out

  -- A rejection comes from reading the current version after such a failure.
  abbrev pub Reports :
      MigrationOptions V
      → List (SchemaMigration V)
      → List V
      → List (V × Text)
      → Type 0
      → Database V W × Fallible V (MigrationResult V)
      → Type 0
  Reports o sel skipped vs seen (db, failed e) =
      IsReadError e × ((first : MigrationError V) × Failure o sel vs first db.versions)
  Reports o sel skipped vs seen (db, ok r) = Comes o sel skipped vs db.versions seen r r.error

  -- The versions that count as applied.
  abbrev pub counting : Bool → List (V × Text) → List (V × Text)
  counting force vs = if force then [] else vs

  abbrev pub already : List (V × Text) → List (SchemaMigration V) → List V
  already applied ms = map version_of (filter_by (λ m. has dec m.version applied) ms)

  -- The recorded versions have been read and sorted, unless the run is forced.
  abbrev pub WasRead : Bool → Database V W → Type 0
  WasRead true db = Unit
  WasRead false db =
      ((client.run_history db.world).1 ≡ none) × (can_sort le is_semver db.versions ≡ true)
