-- ===== src/Migrations/Compared.antt =====
-- What a selection has compared (src/graph/migration/MigrationRunner.ts).
use personal_knowledge_mcp.Base.{
  Bool, List, Option, Text, [], false, if-elim, if◌then◌else◌, inl, inr, none, refl, some, true,
  ◌&&◌, ◌∷◌, ◌≡◌, ◌⊎◌,
}
use personal_knowledge_mcp.JsMap.Defs.{has}
use personal_knowledge_mcp.Migrations.Migrate.{
  Fallible, and_then, compare_le, failed, keep_if, migrations_to_apply, ok,
}
use personal_knowledge_mcp.Migrations.Registry.{SchemaMigration}
use personal_knowledge_mcp.Migrations.Runner.{Client}
use personal_knowledge_mcp.Migrations.Selection.{Gives, chosen, selection_exact}

module _ {V W : Type 0} (client : Client V W) (dec : Discrete V) (le : V → V → Bool)
    (is_semver : V → Bool) where
  -- If there is a target, it and every version that is not applied can be compared.
  abbrev pub AllCompared : Option V → List (V × Text) → List (SchemaMigration V) → Type 0
  AllCompared none applied ms = Unit
  AllCompared (some target) applied [] = Unit
  AllCompared (some target) applied (m ∷ ms) =
      ((has dec m.version applied ≡ true) ⊎ ((is_semver m.version && is_semver target) ≡ true))
      × AllCompared (some target) applied ms

  abbrev Done : Type 0 → Fallible V (List (SchemaMigration V)) → Type 0
  Done T r = Gives (λ sel. T) r

  Done-map :
      {S T : Type 0} (f : S → T) (r : Fallible V (List (SchemaMigration V))) → Done S r → Done T r
  Done-map f (failed e) h = h
  Done-map f (ok sel) h = f h

  Done-kept :
      {S T : Type 0} (f : S → T) (m : SchemaMigration V) (b : Bool)
      (rest : Fallible V (List (SchemaMigration V)))
      → Done S rest
      → Done T (and_then (λ ns. ok (keep_if client dec le is_semver m ns b)) rest)
  Done-kept f m b (failed e) h = h
  Done-kept f m b (ok ns) h = f h

  compared-next :
      (S : Type 0) (m : SchemaMigration V) (target : V) (present : Bool)
      (rest : Fallible V (List (SchemaMigration V)))
      → Done S rest
      → Done (((present ≡ true) ⊎ ((is_semver m.version && is_semver target) ≡ true)) × S) (
          if present
          then rest
          else and_then
              (λ b. and_then (λ ns. ok (keep_if client dec le is_semver m ns b)) rest)
              (compare_le le is_semver m.version target))
  compared-next S m target true rest h = Done-map (λ s. (inl refl, s)) rest h
  compared-next S m target false rest h =
      if-elim
        (λ x.
          Done (((false ≡ true) ⊎ ((is_semver m.version && is_semver target) ≡ true)) × S)
            (and_then (λ b. and_then (λ ns. ok (keep_if client dec le is_semver m ns b)) rest) x))
        (is_semver m.version && is_semver target) _ _
        (λ e. Done-kept (λ s. (inr e, s)) m (le m.version target) rest h) (λ e. tt)

  selection-AllCompared :
      (target : V) (applied : List (V × Text)) (ms : List (SchemaMigration V))
      → Done
          (AllCompared (some target) applied ms)
          (migrations_to_apply client dec le is_semver (some target) applied ms)
  unfolding migrations_to_apply
  selection-AllCompared target applied [] = tt
  selection-AllCompared target applied (m ∷ ms) =
      compared-next (AllCompared (some target) applied ms) m target (has dec m.version applied)
        (migrations_to_apply client dec le is_semver (some target) applied ms)
        (selection-AllCompared target applied ms)

  both :
      (want : List (SchemaMigration V)) (T : Type 0) (r : Fallible V (List (SchemaMigration V)))
      → Gives (λ sel. sel ≡ want) r
      → Done T r
      → Gives (λ sel. (sel ≡ want) × T) r
  both want T (failed e) h k = h
  both want T (ok sel) h k = (h, k)

  plainly :
      (want : List (SchemaMigration V)) (r : Fallible V (List (SchemaMigration V)))
      → Gives (λ sel. sel ≡ want) r
      → Gives (λ sel. (sel ≡ want) × Unit {0}) r
  plainly want (failed e) h = h
  plainly want (ok sel) h = (h, tt)

  pub selection_compared :
      (target : Option V) (applied : List (V × Text)) (ms : List (SchemaMigration V))
      → Gives
          (λ sel.
            (sel ≡ chosen client dec le is_semver target applied ms)
            × AllCompared target applied ms)
          (migrations_to_apply client dec le is_semver target applied ms)
  selection_compared none applied ms =
      plainly (chosen client dec le is_semver none applied ms) _
        (selection_exact client dec le is_semver none applied ms)
  selection_compared (some target) applied ms =
      both (chosen client dec le is_semver (some target) applied ms)
        (AllCompared (some target) applied ms) _
        (selection_exact client dec le is_semver (some target) applied ms)
        (selection-AllCompared target applied ms)
