-- ===== src/Migrations/Migrate.antt =====
-- `migrate` and `getStatus` (src/graph/migration/MigrationRunner.ts), with all that they read. The
-- comparison of versions is the semver library's: it throws unless both are versions in its sense,
-- and else `le a b` says that it gives 0 or less.
use personal_knowledge_mcp.Base.{
  Bool, List, Option, Text, [], false, filter_by, if◌then◌else◌, map, none, not, some, true, ◌&&◌,
  ◌∷◌,
}
use personal_knowledge_mcp.JsMap.Defs.{has}
use personal_knowledge_mcp.Migrations.Registry.{SchemaMigration, get_latest_version, last_version}
use personal_knowledge_mcp.Migrations.Runner.{
  AppliedMigration, Client, Database, MigrationError, MigrationOptions, MigrationResult,
  SchemaStatus, apply_all, compare_failed, query_failed,
}

-- What a step gives, or the error that it throws.
pub data Fallible (V A : Type 0) : Type 0 where
  failed : MigrationError V → Fallible V A
  ok : A → Fallible V A

abbrev pub and_then : {V A B : Type 0} → (A → Fallible V B) → Fallible V A → Fallible V B
and_then f (failed e) = failed e
and_then f (ok a) = f a

abbrev pub entry_of : {V : Type 0} → SchemaMigration V → AppliedMigration V
entry_of m = record { version = m.version; description = m.description }

abbrev pub version_of : {V : Type 0} → SchemaMigration V → V
version_of m = m.version

module _ {V : Type 0} (le : V → V → Bool) (is_semver : V → Bool) where
  -- Whether the comparison says that the first version is at most the second.
  abbrev pub compare_le : V → V → Fallible V Bool
  compare_le a b = if is_semver a && is_semver b then ok (le a b) else failed compare_failed

  abbrev pub all_semver : List (V × Text) → Bool
  all_semver [] = true
  all_semver ((v, d) ∷ rows) = is_semver v && all_semver rows

  -- Two rows or more are compared as they are sorted.
  abbrev pub can_sort : List (V × Text) → Bool
  can_sort [] = true
  can_sort (row ∷ []) = true
  can_sort (row ∷ next ∷ rows) = all_semver (row ∷ next ∷ rows)

  -- The first of the versions once they are sorted, the highest first.
  unfoldable pub highest : List (V × Text) → Option V
  highest [] = none
  highest ((v, d) ∷ vs) = elim (highest vs) [
    | none ↦ some v
    | some u ↦ if le u v then some v else some u
  ]

module _ {V W : Type 0} (client : Client V W) (dec : Discrete V) (le : V → V → Bool)
    (is_semver : V → Bool) where
  -- `getAppliedMigrations`, of which the set of versions is used and the order where it is read.
  abbrev pub get_applied_migrations : Database V W → Database V W × Fallible V (List (V × Text))
  get_applied_migrations db =
      let (w, failure) = client.run_history db.world in
      (
        record db { world = w },
        elim failure [
          | none ↦
              if can_sort le is_semver db.versions then ok db.versions else failed compare_failed
          | some e ↦ failed (query_failed e)
        ],
      )

  abbrev pub get_current_version : Database V W → Database V W × Fallible V (Option V)
  get_current_version db =
      let (w, failure) = client.run_current db.world in
      (
        record db { world = w },
        elim failure [
          | none ↦
              if can_sort le is_semver db.versions
              then ok (highest le is_semver db.versions)
              else failed compare_failed
          | some e ↦ failed (query_failed e)
        ],
      )

  abbrev pub applied_versions : Bool → Database V W → Database V W × Fallible V (List (V × Text))
  applied_versions force db = if force then (db, ok []) else get_applied_migrations db

  -- Whether a version is at most the target, if there is one.
  abbrev pub within_target : Option V → V → Fallible V Bool
  within_target none v = ok true
  within_target (some target) v = compare_le le is_semver v target

  abbrev pub keep_if :
      SchemaMigration V → List (SchemaMigration V) → Bool → List (SchemaMigration V)
  keep_if m rest b = if b then m ∷ rest else rest

  unfoldable pub migrations_to_apply :
      Option V → List (V × Text) → List (SchemaMigration V) → Fallible V (List (SchemaMigration V))
  migrations_to_apply target applied [] = ok []
  migrations_to_apply target applied (m ∷ ms) =
      let rest = migrations_to_apply target applied ms in
      if has dec m.version applied
      then rest
      else and_then (λ b. and_then (λ ns. ok (keep_if m ns b)) rest)
          (within_target target m.version)

  unfoldable pub skipped_versions : List (V × Text) → List (SchemaMigration V) → List V
  skipped_versions applied ms = map version_of (filter_by (λ m. has dec m.version applied) ms)

  abbrev pub nothing_to_apply : MigrationOptions V → List V → Option V → MigrationResult V
  nothing_to_apply o skipped current = record {
    success = true;
    applied = [];
    skipped = skipped;
    current_version = current;
    error = none;
    dry_run = o.dry_run;
  }

  abbrev pub applied_result : Bool → List V → List (SchemaMigration V) → MigrationResult V
  applied_result dry skipped ms = record {
    success = true;
    applied = map entry_of ms;
    skipped = skipped;
    current_version = last_version ms;
    error = none;
    dry_run = dry;
  }

  abbrev pub finished :
      List (SchemaMigration V)
      → List V
      → Database V W × Option (MigrationError V)
      → Database V W × Fallible V (MigrationResult V)
  finished ms skipped (db, none) = (db, ok (applied_result false skipped ms))
  finished ms skipped (db, some e) = (db, failed e)

  abbrev pub then_current :
      (Option V → MigrationResult V)
      → Database V W × Fallible V (Option V)
      → Database V W × Fallible V (MigrationResult V)
  then_current f (db, failed e) = (db, failed e)
  then_current f (db, ok v) = (db, ok (f v))

  abbrev pub apply_selected :
      MigrationOptions V
      → List V
      → List (SchemaMigration V)
      → Database V W
      → Database V W × Fallible V (MigrationResult V)
  apply_selected o skipped [] db =
      then_current (nothing_to_apply o skipped) (get_current_version db)
  apply_selected o skipped (m ∷ ms) db =
      if o.dry_run
      then (db, ok (applied_result true skipped (m ∷ ms)))
      else finished (m ∷ ms) skipped (apply_all client dec (m ∷ ms) db)

  abbrev pub after_selection :
      MigrationOptions V
      → List V
      → Fallible V (List (SchemaMigration V))
      → Database V W
      → Database V W × Fallible V (MigrationResult V)
  after_selection o skipped (failed e) db = (db, failed e)
  after_selection o skipped (ok ms) db = apply_selected o skipped ms db

  -- The body of the `try` statement.
  abbrev pub after_history :
      MigrationOptions V
      → List (SchemaMigration V)
      → Database V W × Fallible V (List (V × Text))
      → Database V W × Fallible V (MigrationResult V)
  after_history o ms (db, failed e) = (db, failed e)
  after_history o ms (db, ok applied) =
      after_selection o (skipped_versions applied ms)
        (migrations_to_apply o.target_version applied ms) db

  abbrev pub failure_result : MigrationOptions V → MigrationError V → Option V → MigrationResult V
  failure_result o e current = record {
    success = false;
    applied = [];
    skipped = [];
    current_version = current;
    error = some e;
    dry_run = o.dry_run;
  }

  -- The `catch` clause, in which reading the current version may throw again.
  abbrev pub caught :
      MigrationOptions V
      → Database V W × Fallible V (MigrationResult V)
      → Database V W × Fallible V (MigrationResult V)
  caught o (db, ok r) = (db, ok r)
  caught o (db, failed e) = then_current (failure_result o e) (get_current_version db)

  -- What the promise resolves to, or the error with which it is rejected.
  unfoldable pub migrate :
      MigrationOptions V
      → List (SchemaMigration V)
      → Database V W
      → Database V W × Fallible V (MigrationResult V)
  unfolding migrations_to_apply skipped_versions apply_all highest last_version
  migrate o ms db = caught o (after_history o ms (applied_versions o.force db))

  -- Whether a version is above the current one, if there is one.
  abbrev pub above : Option V → V → Fallible V Bool
  above none v = ok true
  above (some current) v = and_then (λ b. ok (not b)) (compare_le le is_semver v current)

  unfoldable pub pending_migrations :
      Option V → List (SchemaMigration V) → Fallible V (List (SchemaMigration V))
  pending_migrations current [] = ok []
  pending_migrations current (m ∷ ms) =
      let rest = pending_migrations current ms in
      and_then (λ b. and_then (λ ns. ok (keep_if m ns b)) rest) (above current m.version)

  abbrev pub after_read :
      V
      → List (SchemaMigration V)
      → Database V W × Fallible V (List (V × Text))
      → Database V W × Fallible V (SchemaStatus V)
  after_read zero_version ms (db, failed e) = (db, failed e)
  after_read zero_version ms (db, ok history) =
      let current = highest le is_semver history in
      (
        db,
        and_then
            (λ pending. ok (record {
              current_version = current;
              latest_version = get_latest_version zero_version ms;
              pending_versions = map version_of pending;
            }))
            (pending_migrations current ms),
      )

  unfoldable pub get_status :
      V → List (SchemaMigration V) → Database V W → Database V W × Fallible V (SchemaStatus V)
  unfolding highest get_latest_version pending_migrations
  get_status zero_version ms db = after_read zero_version ms (get_applied_migrations db)
