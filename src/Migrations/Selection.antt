-- ===== src/Migrations/Selection.antt =====
-- Which migrations a run selects (src/graph/migration/MigrationRunner.ts).
use personal_knowledge_mcp.Base.{
  Bool, List, Option, Text, [], ap, false, filter_by, if-elim, if◌then◌else◌, none, not, refl, some,
  true, ◌&&◌, ◌∷◌, ◌≡◌,
}
use personal_knowledge_mcp.JsMap.Defs.{has}
use personal_knowledge_mcp.Migrations.Migrate.{
  Fallible, and_then, failed, keep_if, migrations_to_apply, ok, within_target,
}
use personal_knowledge_mcp.Migrations.Registered.{registered-filter}
use personal_knowledge_mcp.Migrations.Registry.{SchemaMigration, is_registered}
use personal_knowledge_mcp.Migrations.Runner.{
  Client, MigrationError, compare_failed, query_failed, statement_failed,
}

module _ {V : Type 0} where
  -- An error of a query, or one that the comparison throws, but not one of a statement.
  abbrev pub IsReadError : MigrationError V → Type 0
  IsReadError (statement_failed v i message) = ⊥
  IsReadError (query_failed message) = Unit
  IsReadError compare_failed = Unit

  -- What holds if a result is given, the only errors being those of reading.
  abbrev pub Gives : {A : Type 0} → (A → Type 0) → Fallible V A → Type 0
  Gives P (failed e) = IsReadError e
  Gives P (ok a) = P a

module _ {V W : Type 0} (client : Client V W) (dec : Discrete V) (le : V → V → Bool)
    (is_semver : V → Bool) where
  abbrev pub is_reached : Option V → V → Bool
  is_reached none v = true
  is_reached (some target) v = le v target

  -- The migrations that are not applied and not above the target.
  abbrev pub chosen :
      Option V → List (V × Text) → List (SchemaMigration V) → List (SchemaMigration V)
  chosen target applied ms =
      filter_by (λ m. not (has dec m.version applied) && is_reached target m.version) ms

  abbrev added :
      SchemaMigration V → List (SchemaMigration V) → Bool → Bool → List (SchemaMigration V)
  added m rest present b = elim (not present && b) [ true ↦ m ∷ rest | false ↦ rest ]

  select-kept :
      (m : SchemaMigration V) (want : List (SchemaMigration V)) (b : Bool)
      (rest : Fallible V (List (SchemaMigration V)))
      → Gives (λ sel. sel ≡ want) rest
      → Gives
          (λ sel. sel ≡ added m want false b)
          (and_then (λ ns. ok (keep_if client dec le is_semver m ns b)) rest)
  select-kept m want b (failed e) h = h
  select-kept m want true (ok ns) h = ap (◌∷◌ m) h
  select-kept m want false (ok ns) h = h

  select-target :
      (m : SchemaMigration V) (want : List (SchemaMigration V)) (target : Option V)
      (rest : Fallible V (List (SchemaMigration V)))
      → Gives (λ sel. sel ≡ want) rest
      → Gives
          (λ sel. sel ≡ added m want false (is_reached target m.version))
          (and_then
            (λ b. and_then (λ ns. ok (keep_if client dec le is_semver m ns b)) rest)
            (within_target client dec le is_semver target m.version))
  select-target m want none rest h = select-kept m want true rest h
  select-target m want (some t) rest h =
      if-elim
        (λ x.
          Gives (λ sel. sel ≡ added m want false (le m.version t))
            (and_then (λ b. and_then (λ ns. ok (keep_if client dec le is_semver m ns b)) rest) x))
        (is_semver m.version && is_semver t) _ _ (λ e. select-kept m want (le m.version t) rest h)
        (λ e. tt)

  select-next :
      (m : SchemaMigration V) (want : List (SchemaMigration V)) (target : Option V) (present : Bool)
      (rest : Fallible V (List (SchemaMigration V)))
      → Gives (λ sel. sel ≡ want) rest
      → Gives
          (λ sel. sel ≡ added m want present (is_reached target m.version))
          (if present
            then rest
            else and_then
                (λ b. and_then (λ ns. ok (keep_if client dec le is_semver m ns b)) rest)
                (within_target client dec le is_semver target m.version))
  select-next m want target true rest h = h
  select-next m want target false rest h = select-target m want target rest h

  -- If no comparison throws, exactly these are selected.
  pub selection_exact :
      (target : Option V) (applied : List (V × Text)) (ms : List (SchemaMigration V))
      → Gives
          (λ sel. sel ≡ chosen target applied ms)
          (migrations_to_apply client dec le is_semver target applied ms)
  unfolding migrations_to_apply
  selection_exact target applied [] = refl
  selection_exact target applied (m ∷ ms) =
      select-next m (chosen target applied ms) target (has dec m.version applied)
        (migrations_to_apply client dec le is_semver target applied ms)
        (selection_exact target applied ms)

  abbrev IsOk : {A : Type 0} → Fallible V A → Type 0
  IsOk (failed e) = ⊥
  IsOk (ok a) = Unit

  next-IsOk :
      (m : SchemaMigration V) (b present : Bool) (rest : Fallible V (List (SchemaMigration V)))
      → IsOk rest
      → IsOk (
          if present
          then rest
          else and_then
              (λ b. and_then (λ ns. ok (keep_if client dec le is_semver m ns b)) rest)
              (ok b))
  next-IsOk m b true rest h = h
  next-IsOk m b false (failed e) h = h
  next-IsOk m b false (ok ns) h = tt

  target-ok :
      ((v : V) → is_semver v ≡ true)
      → (target : Option V) (v : V)
      → within_target client dec le is_semver target v ≡ ok (is_reached target v)
  target-ok all none v = refl
  target-ok all (some t) v = rw (all v, all t)

  selection-IsOk :
      ((v : V) → is_semver v ≡ true)
      → (target : Option V) (applied : List (V × Text)) (ms : List (SchemaMigration V))
      → IsOk (migrations_to_apply client dec le is_semver target applied ms)
  unfolding migrations_to_apply
  selection-IsOk all target applied [] = tt
  selection-IsOk all target applied (m ∷ ms) = rw (target-ok all target m.version) (
      next-IsOk m (is_reached target m.version) (has dec m.version applied)
        (migrations_to_apply client dec le is_semver target applied ms)
        (selection-IsOk all target applied ms))

  plain-IsOk :
      (applied : List (V × Text)) (ms : List (SchemaMigration V))
      → IsOk (migrations_to_apply client dec le is_semver none applied ms)
  unfolding migrations_to_apply
  plain-IsOk applied [] = tt
  plain-IsOk applied (m ∷ ms) =
      next-IsOk m true (has dec m.version applied)
        (migrations_to_apply client dec le is_semver none applied ms) (plain-IsOk applied ms)

  ok-given :
      (want : List (SchemaMigration V)) (r : Fallible V (List (SchemaMigration V)))
      → IsOk r
      → Gives (λ sel. sel ≡ want) r
      → r ≡ ok want
  ok-given want (failed e) k h = absurd k
  ok-given want (ok sel) k h = ap ok h

  pub selection-semver :
      ((v : V) → is_semver v ≡ true)
      → (target : Option V) (applied : List (V × Text)) (ms : List (SchemaMigration V))
      → migrations_to_apply client dec le is_semver target applied ms
        ≡ ok (chosen target applied ms)
  selection-semver all target applied ms =
      ok-given (chosen target applied ms) _ (selection-IsOk all target applied ms)
        (selection_exact target applied ms)

  pub selection-plain :
      (applied : List (V × Text)) (ms : List (SchemaMigration V))
      → migrations_to_apply client dec le is_semver none applied ms ≡ ok (chosen none applied ms)
  selection-plain applied ms =
      ok-given (chosen none applied ms) _ (plain-IsOk applied ms) (selection_exact none applied ms)

  pub registered-chosen :
      (v : V) (target : Option V) (applied : List (V × Text)) (ms : List (SchemaMigration V))
      → is_registered dec v (chosen target applied ms)
        ≡ (is_registered dec v ms && (not (has dec v applied) && is_reached target v))
  registered-chosen v target applied ms =
      registered-filter dec v (λ u. not (has dec u applied) && is_reached target u) ms
