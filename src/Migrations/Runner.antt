-- ===== src/Migrations/Runner.antt =====
-- `MigrationRunner` (src/graph/migration/MigrationRunner.ts). What a statement does to the database
-- is given, with the message of its error if it fails. The SchemaVersion nodes are kept apart, as a
-- map from versions to descriptions: MERGE makes one or finds it, and SET sets the description.
-- Only the runner writes them. The queries that write one or read them may fail.
use personal_knowledge_mcp.Base.{
  Bool, List, Option, Text, [], codes, if◌then◌else◌, leb, map, none, some, starts_with, ℕ, ◌&&◌,
  ◌+◌, ◌||◌, ◌∷◌,
}
use personal_knowledge_mcp.JsMap.Defs.{set}
use personal_knowledge_mcp.Migrations.Registry.{SchemaMigration}

pub record Database (V W : Type 0) : Type 0 where
  pub world : W
  pub versions : List (V × Text)

pub record Client (V W : Type 0) : Type 0 where
  pub run_query : Text → W → W × Option Text
  pub run_record : V → W → W × Option Text
  pub run_history : W → W × Option Text
  pub run_current : W → W × Option Text

pub data MigrationError (V : Type 0) : Type 0 where
  statement_failed : V → ℕ → Text → MigrationError V
  query_failed : Text → MigrationError V
  compare_failed : MigrationError V

pub record AppliedMigration (V : Type 0) : Type 0 where
  pub version : V
  pub description : Text

pub record MigrationOptions (V : Type 0) : Type 0 where
  pub dry_run : Bool
  pub force : Bool
  pub target_version : Option V

pub record MigrationResult (V : Type 0) : Type 0 where
  pub success : Bool
  pub applied : List (AppliedMigration V)
  pub skipped : List V
  pub current_version : Option V
  pub error : Option (MigrationError V)
  pub dry_run : Bool

pub record SchemaStatus (V : Type 0) : Type 0 where
  pub current_version : Option V
  pub latest_version : V
  pub pending_versions : List V

-- The patterns disregard the case of the letters; those that the other ones imply are left out.
abbrev pub to_lower : ℕ → ℕ
to_lower c = if leb b'A' c && leb c b'Z' then c + 32 else c

unfoldable pub contains_text : Text → Text → Bool
contains_text p [] = starts_with p []
contains_text p (c ∷ s) = starts_with p (c ∷ s) || contains_text p s

unfoldable pub is_already_exists_error : Text → Bool
unfolding contains_text
is_already_exists_error message =
    let text = map to_lower message in
    contains_text (codes "already exists") text
    || contains_text (codes "duplicate") text
    || contains_text (codes "already indexed") text

module _ {V W : Type 0} (client : Client V W) (dec : Discrete V) where
  -- The rest of the statements, `i` being the index of the first.
  unfoldable pub run_statements : V → ℕ → List Text → W → W × Option (MigrationError V)
  run_statements v i [] w = (w, none)
  run_statements v i ([] ∷ sts) w = run_statements v (i + 1) sts w
  run_statements v i ((c ∷ st) ∷ sts) w =
      let (w1, failure) = client.run_query (c ∷ st) w in
      let rest = run_statements v (i + 1) sts w1 in
      elim failure [
        | none ↦ rest
        | some e ↦
            if is_already_exists_error e then rest else (w1, some (statement_failed v (i + 1) e))
      ]

  abbrev pub recorded :
      SchemaMigration V → W × Option Text → Database V W → Database V W × Option (MigrationError V)
  recorded m (w, none) db =
      (record { world = w; versions = set dec m.version m.description db.versions }, none)
  recorded m (w, some e) db = (record db { world = w }, some (query_failed e))

  abbrev pub after_statements :
      SchemaMigration V
      → W × Option (MigrationError V)
      → Database V W
      → Database V W × Option (MigrationError V)
  after_statements m (w, none) db = recorded m (client.run_record m.version w) db
  after_statements m (w, some e) db = (record db { world = w }, some e)

  unfoldable pub apply_migration :
      SchemaMigration V → Database V W → Database V W × Option (MigrationError V)
  unfolding run_statements
  apply_migration m db = after_statements m (run_statements m.version 0 m.statements db.world) db

  -- The loop over the migrations to apply, up to the first that fails.
  unfoldable pub apply_all :
      List (SchemaMigration V) → Database V W → Database V W × Option (MigrationError V)
  unfolding apply_migration
  apply_all [] db = (db, none)
  apply_all (m ∷ ms) db =
      let (db1, failure) = apply_migration m db in
      let rest = apply_all ms db1 in elim failure [ none ↦ rest | some e ↦ (db1, some e) ]
