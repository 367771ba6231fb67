-- ===== src/Migrations/Registered.antt =====
-- Which versions a list of migrations has (src/graph/migration/MigrationRunner.ts).
use personal_knowledge_mcp.Base.{
  Bool, List, [], ap, arith, false, filter_by, ite, map, refl, true, ◌&&◌, ◌∷◌, ◌≡◌,
}
use personal_knowledge_mcp.Migrations.Migrate.{version_of}
use personal_knowledge_mcp.Migrations.Registry.{SchemaMigration, get_migration, is_registered}

module _ {V : Type 0} (dec : Discrete V) where
  pub registered-filter :
      (v : V) (p : V → Bool) (ms : List (SchemaMigration V))
      → is_registered dec v (filter_by (λ m. p m.version) ms) ≡ (is_registered dec v ms && p v)
  unfolding get_migration
  registered-filter v p [] = refl
  registered-filter v p (m ∷ ms) = elim (dec m.version v) [
    | yes e ↦ ground (arith, registered-filter v p ms, ap p e)
    | no n ↦ ground (arith, registered-filter v p ms)
  ]

  registered-head :
      (m : SchemaMigration V) (ms : List (SchemaMigration V))
      → is_registered dec m.version (m ∷ ms) ≡ true
  unfolding get_migration
  registered-head m ms = ground arith

  registered-tail :
      (v : V) (m : SchemaMigration V) (ms : List (SchemaMigration V))
      → is_registered dec v ms ≡ true
      → is_registered dec v (m ∷ ms) ≡ true
  unfolding get_migration
  registered-tail v m ms h = ground arith

  -- Nothing is chosen if no registered version is.
  pub filter-nil :
      (q : V → Bool) (ms : List (SchemaMigration V))
      → ((v : V) → is_registered dec v ms ≡ true → q v ≡ false)
      → filter_by (λ m. q m.version) ms ≡ []
  filter-nil q [] h = refl
  filter-nil q (m ∷ ms) h =
      rw (h m.version (registered-head m ms))
        (filter-nil q ms (λ v r. h v (registered-tail v m ms r)))

  abbrev pub listed : V → List V → Bool
  listed v [] = false
  listed v (u ∷ us) = ite (dec u v) true (listed v us)

  pub listed-versions :
      (v : V) (ms : List (SchemaMigration V))
      → listed v (map version_of ms) ≡ is_registered dec v ms
  unfolding get_migration
  listed-versions v [] = refl
  listed-versions v (m ∷ ms) = ground (arith, listed-versions v ms)
