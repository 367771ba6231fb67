-- ===== src/Migrations/Pending.antt =====
-- The pending versions against what a run would apply (src/graph/migration/MigrationRunner.ts).
use personal_knowledge_mcp.Base.{
  Bool, List, Option, Text, [], ap, arith, false, if-elim, if◌then◌else◌, map, none, not, refl,
  some, true, ◌&&◌, ◌∙◌, ◌∷◌, ◌≡◌,
}
use personal_knowledge_mcp.JsMap.Defs.{has}
use personal_knowledge_mcp.Migrations.Migrate.{
  Fallible, above, after_read, and_then, can_sort, failed, get_status, highest, keep_if,
  migrations_to_apply, ok, pending_migrations, version_of,
}
use personal_knowledge_mcp.Migrations.Registered.{listed, listed-versions}
use personal_knowledge_mcp.Migrations.Registry.{
  SchemaMigration, get_latest_version, get_migration, is_registered,
}
use personal_knowledge_mcp.Migrations.Runner.{
  Client, Database, SchemaStatus, compare_failed, query_failed,
}
use personal_knowledge_mcp.Migrations.Selection.{Gives, chosen, registered-chosen, selection-plain}

module _ {V W : Type 0} (client : Client V W) (dec : Discrete V) (le : V → V → Bool)
    (is_semver : V → Bool) where
  abbrev IsUnlisted : V → Fallible V (List (SchemaMigration V)) → Type 0
  IsUnlisted v r = Gives (λ pending. is_registered dec v pending ≡ false) r

  pending-kept :
      (v current : V) (m : SchemaMigration V) (rest : Fallible V (List (SchemaMigration V)))
      → le v current ≡ true
      → IsUnlisted v rest
      → IsUnlisted v (
          and_then
            (λ ns. ok (keep_if client dec le is_semver m ns (not (le m.version current))))
            rest)
  unfolding get_migration
  pending-kept v current m (failed e) low h = h
  pending-kept v current m (ok ns) low h =
      if-elim (λ out. is_registered dec v out ≡ false) (not (le m.version current)) _ _
        (λ e. ground (arith, λ (p : m.version ≡ v). ap (λ (x : V). le x current) p)) (λ e. h)

  pending-next :
      (v current : V) (m : SchemaMigration V) (rest : Fallible V (List (SchemaMigration V)))
      → le v current ≡ true
      → IsUnlisted v rest
      → IsUnlisted v (
          and_then
            (λ b. and_then (λ ns. ok (keep_if client dec le is_semver m ns b)) rest)
            (above client dec le is_semver (some current) m.version))
  pending-next v current m rest low h =
      if-elim
        (λ x. IsUnlisted v (
          and_then (λ b. and_then (λ ns. ok (keep_if client dec le is_semver m ns b)) rest)
            (and_then (λ b. ok (not b)) x)))
        (is_semver m.version && is_semver current) _ _ (λ e. pending-kept v current m rest low h)
        (λ e. tt)

  pending-IsUnlisted :
      (v current : V) (ms : List (SchemaMigration V))
      → le v current ≡ true
      → IsUnlisted v (pending_migrations client dec le is_semver (some current) ms)
  unfolding pending_migrations get_migration
  pending-IsUnlisted v current [] low = refl
  pending-IsUnlisted v current (m ∷ ms) low =
      pending-next v current m (pending_migrations client dec le is_semver (some current) ms) low
        (pending-IsUnlisted v current ms low)

  abbrev pub Omits : V → Fallible V (SchemaStatus V) → Type 0
  Omits v r = Gives (λ st. listed dec v st.pending_versions ≡ false) r

  status-of :
      (v zero_version : V) (current : Option V) (r : Fallible V (List (SchemaMigration V)))
      → IsUnlisted v r
      → Omits v (
          and_then
            (λ pending. ok (record {
              current_version = current;
              latest_version = zero_version;
              pending_versions = map version_of pending;
            }))
            r)
  status-of v zero_version current (failed e) h = h
  status-of v zero_version current (ok ns) h = listed-versions dec v ns ∙ h

  status-read :
      (v zero_version current : V) (ms : List (SchemaMigration V)) (db : Database V W)
      (failure : Option Text)
      → le v current ≡ true
      → highest le is_semver db.versions ≡ some current
      → Omits v
          (after_read client dec le is_semver zero_version ms (
            db,
            elim failure [
              | none ↦
                  if can_sort le is_semver db.versions
                  then ok db.versions
                  else failed compare_failed
              | some e ↦ failed (query_failed e)
            ],
          )).1
  status-read v zero_version current ms db none low high =
      if-elim (λ x. Omits v (after_read client dec le is_semver zero_version ms (db, x)).1)
        (can_sort le is_semver db.versions) _ _
        (λ e. rw high (
          status-of v (get_latest_version zero_version ms) (some current)
            (pending_migrations client dec le is_semver (some current) ms)
            (pending-IsUnlisted v current ms low)))
        (λ e. tt)
  status-read v zero_version current ms db (some e) low high = tt

  -- A version that is registered, has not been applied and is at most the highest applied one is
  -- not among the pending versions of `getStatus`, whenever this answers (the only errors being
  -- those of the query and of the comparison), and yet a plain `migrate` that has read the
  -- versions selects it.
  pub status_misses :
      (v current zero_version : V) (ms : List (SchemaMigration V)) (db : Database V W)
      → is_registered dec v ms ≡ true
      → has dec v db.versions ≡ false
      → highest le is_semver db.versions ≡ some current
      → le v current ≡ true
      → Omits v (get_status client dec le is_semver zero_version ms db).1
        × ((selected : List (SchemaMigration V)) × (migrations_to_apply client dec le is_semver none
                db.versions ms
              ≡ ok selected)
            × (is_registered dec v selected ≡ true))
  unfolding get_status
  status_misses v current zero_version ms db reg unapplied high low = (
    status-read v zero_version current ms (record db { world = (client.run_history db.world).0 })
        (client.run_history db.world).1 low high,
    (
      chosen client dec le is_semver none db.versions ms,
      selection-plain client dec le is_semver db.versions ms,
      rw (registered-chosen client dec le is_semver v none db.versions ms, reg, unapplied),
    ),
  )
