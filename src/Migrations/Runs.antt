-- ===== src/Migrations/Runs.antt =====
-- What the loop of a run records (src/graph/migration/MigrationRunner.ts).
use personal_knowledge_mcp.Base.{
  List, Option, Text, [], arith, if-elim, if◌then◌else◌, length, none, refl, some, subst, suc, take,
  zero, ℕ, ◌+◌, ◌<◌, ◌||◌, ◌∷◌, ◌≡◌, ◌≤◌,
}
use personal_knowledge_mcp.JsMap.Defs.{has, set}
use personal_knowledge_mcp.JsMap.Laws.{has-set}
use personal_knowledge_mcp.Migrations.Registry.{SchemaMigration, get_migration, is_registered}
use personal_knowledge_mcp.Migrations.Runner.{
  Client, Database, MigrationError, after_statements, apply_all, apply_migration, compare_failed,
  is_already_exists_error, query_failed, recorded, run_statements, statement_failed,
}

module _ {V W : Type 0} (client : Client V W) (dec : Discrete V) where
  -- The nodes once the migrations are recorded one after the other.
  abbrev pub record_all : List (SchemaMigration V) → List (V × Text) → List (V × Text)
  record_all [] vs = vs
  record_all (m ∷ ms) vs = record_all ms (set dec m.version m.description vs)

  pub has-record_all :
      (v : V) (ms : List (SchemaMigration V)) (vs : List (V × Text))
      → has dec v (record_all ms vs) ≡ (is_registered dec v ms || has dec v vs)
  unfolding get_migration
  has-record_all v [] vs = refl
  has-record_all v (m ∷ ms) vs = ground (
    arith,
    has-record_all v ms (set dec m.version m.description vs),
    has-set dec m.version v m.description vs,
  )

  -- The error is one that applying the migration can end with: it names the version, and the
  -- number of one of the statements, or comes from the query that records it.
  abbrev pub Names : SchemaMigration V → MigrationError V → Type 0
  Names m (statement_failed v i message) = (v ≡ m.version) × (1 ≤ i) × (i ≤ length m.statements)
  Names m (query_failed message) = Unit
  Names m compare_failed = ⊥

  -- Of so many statements from an index on, one fails.
  abbrev Stops : V → ℕ → ℕ → W × Option (MigrationError V) → Type 0
  Stops v i n (w, none) = Unit
  Stops v i n (w, some (statement_failed u j message)) = (u ≡ v) × (i < j) × (j ≤ i + n)
  Stops v i n (w, some (query_failed message)) = ⊥
  Stops v i n (w, some compare_failed) = ⊥

  Stops-suc :
      (v : V) (i n : ℕ) (r : W × Option (MigrationError V))
      → Stops v (i + 1) n r
      → Stops v i (suc n) r
  Stops-suc v i n (w, none) h = tt
  Stops-suc v i n (w, some (statement_failed u j message)) (same, low, high) =
      (same, omega arith, omega arith)
  Stops-suc v i n (w, some (query_failed message)) h = h
  Stops-suc v i n (w, some compare_failed) h = h

  next_statement :
      (v : V) (i n : ℕ) (failure : Option Text) (w : W) (rest : W × Option (MigrationError V))
      → Stops v (i + 1) n rest
      → Stops v i (suc n) (elim failure [
        | none ↦ rest
        | some e ↦
            if is_already_exists_error e then rest else (w, some (statement_failed v (i + 1) e))
      ])
  next_statement v i n none w rest h = Stops-suc v i n rest h
  next_statement v i n (some e) w rest h =
      if-elim (Stops v i (suc n)) (is_already_exists_error e) _ _ (λ b. Stops-suc v i n rest h)
        (λ b. (refl, omega arith, omega arith))

  run_statements-Stops :
      (v : V) (i : ℕ) (sts : List Text) (w : W)
      → Stops v i (length sts) (run_statements client dec v i sts w)
  unfolding run_statements
  run_statements-Stops v i [] w = tt
  run_statements-Stops v i ([] ∷ sts) w =
      Stops-suc v i (length sts) (run_statements client dec v (i + 1) sts w)
        (run_statements-Stops v (i + 1) sts w)
  run_statements-Stops v i ((c ∷ st) ∷ sts) w =
      let (w1, failure) = client.run_query (c ∷ st) w in
      next_statement v i (length sts) failure w1 (run_statements client dec v (i + 1) sts w1)
        (run_statements-Stops v (i + 1) sts w1)

  -- A migration is recorded if it succeeds, and not if it fails.
  abbrev Records :
      SchemaMigration V → Database V W → Database V W × Option (MigrationError V) → Type 0
  Records m db (db1, none) = db1.versions ≡ set dec m.version m.description db.versions
  Records m db (db1, some e) = (db1.versions ≡ db.versions) × Names m e

  recorded-Records :
      (m : SchemaMigration V) (r : W × Option Text) (db : Database V W)
      → Records m db (recorded client dec m r db)
  recorded-Records m (w, none) db = refl
  recorded-Records m (w, some e) db = (refl, tt)

  after_statements-Records :
      (m : SchemaMigration V) (r : W × Option (MigrationError V)) (db : Database V W)
      → Stops m.version 0 (length m.statements) r
      → Records m db (after_statements client dec m r db)
  after_statements-Records m (w, none) db h = recorded-Records m (client.run_record m.version w) db
  after_statements-Records m (w, some (statement_failed v i x)) db (same, low, high) =
      (refl, (same, omega arith, omega arith))
  after_statements-Records m (w, some (query_failed x)) db h = absurd h
  after_statements-Records m (w, some compare_failed) db h = absurd h

  apply_migration-Records :
      (m : SchemaMigration V) (db : Database V W) → Records m db (apply_migration client dec m db)
  unfolding apply_migration
  apply_migration-Records m db =
      after_statements-Records m (run_statements client dec m.version 0 m.statements db.world) db
        (run_statements-Stops m.version 0 m.statements db.world)

  abbrev pub get_elem? : List (SchemaMigration V) → ℕ → Option (SchemaMigration V)
  get_elem? [] k = none
  get_elem? (m ∷ ms) zero = some m
  get_elem? (m ∷ ms) (suc k) = get_elem? ms k

  -- One of the migrations fails with the error; the ones before it are recorded, in order, and no
  -- others.
  abbrev pub FailsAmong :
      List (SchemaMigration V) → List (V × Text) → MigrationError V → List (V × Text) → Type 0
  FailsAmong ms vs e out =
      (k : ℕ) × (m : SchemaMigration V) × (get_elem? ms k ≡ some m)
      × Names m e
      × (out ≡ record_all (take k ms) vs)

  abbrev pub Prefix :
      List (SchemaMigration V) → List (V × Text) → Database V W × Option (MigrationError V) → Type 0
  Prefix ms vs (db, none) = db.versions ≡ record_all ms vs
  Prefix ms vs (db, some e) = FailsAmong ms vs e db.versions

  Prefix-cons :
      (m : SchemaMigration V) (ms : List (SchemaMigration V)) (vs : List (V × Text))
      (r : Database V W × Option (MigrationError V))
      → Prefix ms (set dec m.version m.description vs) r
      → Prefix (m ∷ ms) vs r
  Prefix-cons m ms vs (db, none) h = h
  Prefix-cons m ms vs (db, some e) (k, x, at, names, same) = (suc k, x, at, names, same)

  apply_next :
      (m : SchemaMigration V) (ms : List (SchemaMigration V)) (db : Database V W)
      (r : Database V W × Option (MigrationError V))
      (rest : Database V W × Option (MigrationError V))
      → Records m db r
      → Prefix ms r.0.versions rest
      → Prefix (m ∷ ms) db.versions (elim r.1 [ none ↦ rest | some e ↦ (r.0, some e) ])
  apply_next m ms db (db1, none) rest e h =
      Prefix-cons m ms db.versions rest (subst (λ vs. Prefix ms vs rest) e h)
  apply_next m ms db (db1, some x) rest (e, names) h = (0, m, refl, names, e)

  pub apply_all-Prefix :
      (ms : List (SchemaMigration V)) (db : Database V W)
      → Prefix ms db.versions (apply_all client dec ms db)
  unfolding apply_all
  apply_all-Prefix [] db = refl
  apply_all-Prefix (m ∷ ms) db =
      apply_next m ms db (apply_migration client dec m db)
        (apply_all client dec ms (apply_migration client dec m db).0) (apply_migration-Records m db)
        (apply_all-Prefix ms (apply_migration client dec m db).0)
