-- ===== src/Migrations/Ordered.antt =====
-- The registry stays sorted and free of duplicates (src/graph/migration/MigrationRunner.ts).
use personal_knowledge_mcp.Base.{
  Bool, List, Text, [], arith, false, if-elim, ite, not, refl, true, ◌++◌, ◌∙◌, ◌∷◌, ◌≡◌,
}
use personal_knowledge_mcp.Migrations.Format.{format-lem, is_three_numbers}
use personal_knowledge_mcp.Migrations.Registry.{
  Registered, SchemaMigration, duplicate_version, get_migration, insert_sorted, invalid_version,
  is_registered, is_version_format, refused, register, registered, sort_by_version,
}

module _ {V : Type 0} (dec : Discrete V) (le : V → V → Bool) (text_of : V → Text)
    (total : (a b : V) → le a b ≡ false → le b a ≡ true)
    (trans : (a b c : V) → le a b ≡ true → le b c ≡ true → le a c ≡ true) where
  -- Every version is at most the ones behind it.
  abbrev pub AllFrom : V → List (SchemaMigration V) → Type 0
  AllFrom v [] = Unit
  AllFrom v (x ∷ xs) = (le v x.version ≡ true) × AllFrom v xs

  abbrev pub IsSorted : List (SchemaMigration V) → Type 0
  IsSorted [] = Unit
  IsSorted (m ∷ ms) = AllFrom m.version ms × IsSorted ms

  abbrev pub IsDistinct : List (SchemaMigration V) → Type 0
  IsDistinct [] = Unit
  IsDistinct (m ∷ ms) = (is_registered dec m.version ms ≡ false) × IsDistinct ms

  AllFrom-trans :
      (a b : V) (ms : List (SchemaMigration V)) → le a b ≡ true → AllFrom b ms → AllFrom a ms
  AllFrom-trans a b [] h k = tt
  AllFrom-trans a b (m ∷ ms) h k = (trans a b m.version h k.0, AllFrom-trans a b ms h k.1)

  insert-AllFrom :
      (a : V) (m : SchemaMigration V) (ms : List (SchemaMigration V))
      → le a m.version ≡ true
      → AllFrom a ms
      → AllFrom a (insert_sorted le m ms)
  unfolding insert_sorted
  insert-AllFrom a m [] h k = (h, tt)
  insert-AllFrom a m (x ∷ xs) h k =
      if-elim (AllFrom a) (le m.version x.version) _ _ (λ e. (h, k))
        (λ e. (k.0, insert-AllFrom a m xs h k.1))

  insert-IsSorted :
      (m : SchemaMigration V) (ms : List (SchemaMigration V))
      → IsSorted ms
      → IsSorted (insert_sorted le m ms)
  unfolding insert_sorted
  insert-IsSorted m [] h = (tt, tt)
  insert-IsSorted m (x ∷ xs) h =
      if-elim IsSorted (le m.version x.version) _ _
        (λ e. ((e, AllFrom-trans m.version x.version xs e h.0), h))
        (λ e. (
          insert-AllFrom x.version m xs (total m.version x.version e) h.0,
          insert-IsSorted m xs h.1,
        ))

  sort-IsSorted : (ms : List (SchemaMigration V)) → IsSorted (sort_by_version le ms)
  unfolding sort_by_version
  sort-IsSorted [] = tt
  sort-IsSorted (m ∷ ms) = insert-IsSorted m (sort_by_version le ms) (sort-IsSorted ms)

  registered-insert :
      (v : V) (m : SchemaMigration V) (ms : List (SchemaMigration V))
      → is_registered dec v (insert_sorted le m ms)
        ≡ ite (dec m.version v) true (is_registered dec v ms)
  unfolding insert_sorted get_migration
  registered-insert v m [] = ground arith
  registered-insert v m (x ∷ xs) = ground (arith, registered-insert v m xs)

  insert-IsDistinct :
      (m : SchemaMigration V) (ms : List (SchemaMigration V))
      → is_registered dec m.version ms ≡ false
      → IsDistinct ms
      → IsDistinct (insert_sorted le m ms)
  unfolding insert_sorted get_migration
  insert-IsDistinct m [] h k = (refl, tt)
  insert-IsDistinct m (x ∷ xs) h k =
      ground (arith, insert-IsDistinct m xs, registered-insert x.version m xs)

  registered-sort :
      (v : V) (ms : List (SchemaMigration V))
      → is_registered dec v (sort_by_version le ms) ≡ is_registered dec v ms
  unfolding sort_by_version get_migration
  registered-sort v [] = refl
  registered-sort v (m ∷ ms) =
      ground (arith, registered-insert v m (sort_by_version le ms), registered-sort v ms)

  sort-IsDistinct :
      (ms : List (SchemaMigration V)) → IsDistinct ms → IsDistinct (sort_by_version le ms)
  unfolding sort_by_version
  sort-IsDistinct [] h = tt
  sort-IsDistinct (m ∷ ms) h =
      insert-IsDistinct m (sort_by_version le ms) (registered-sort m.version ms ∙ h.0)
        (sort-IsDistinct ms h.1)

  registered-append :
      (v : V) (ms : List (SchemaMigration V)) (m : SchemaMigration V)
      → is_registered dec v (ms ++ m ∷ []) ≡ ite (dec m.version v) true (is_registered dec v ms)
  unfolding get_migration
  registered-append v [] m = ground arith
  registered-append v (x ∷ xs) m = ground (arith, registered-append v xs m)

  append-IsDistinct :
      (ms : List (SchemaMigration V)) (m : SchemaMigration V)
      → is_registered dec m.version ms ≡ false
      → IsDistinct ms
      → IsDistinct (ms ++ m ∷ [])
  unfolding get_migration
  append-IsDistinct [] m h k = (refl, tt)
  append-IsDistinct (x ∷ xs) m h k =
      ground (arith, append-IsDistinct xs m, registered-append x.version xs m)

  -- What a registration should come to.
  abbrev pub Extends : SchemaMigration V → List (SchemaMigration V) → Registered V → Type 0
  Extends m ms (registered out) =
      (is_three_numbers (text_of m.version) ≡ true)
      × (is_registered dec m.version ms ≡ false)
      × IsSorted out
      × IsDistinct out
      × ((v : V) → is_registered dec v out ≡ ite (dec m.version v) true (is_registered dec v ms))
  Extends m ms (refused (invalid_version v)) =
      (v ≡ m.version) × (is_three_numbers (text_of m.version) ≡ false)
  Extends m ms (refused (duplicate_version v)) =
      (v ≡ m.version)
      × (is_three_numbers (text_of m.version) ≡ true)
      × (is_registered dec m.version ms ≡ true)

  -- Let the comparison of versions be total and transitive. `register` refuses a version that is
  -- not three numbers with dots between them, and then one that is already registered, with the
  -- error for each; otherwise the registry is sorted afterwards, has no version twice if it had
  -- none before, and has the version that is new besides the ones it had.
  pub register_exact :
      (m : SchemaMigration V) (ms : List (SchemaMigration V))
      → IsDistinct ms
      → Extends m ms (register dec le text_of m ms)
  unfolding register
  register_exact m ms h =
      if-elim (Extends m ms) (not (is_version_format (text_of m.version))) _ _
        (λ e. (refl, ground (arith, format-lem (text_of m.version))))
        λ e.
          if-elim (Extends m ms) (is_registered dec m.version ms) _ _
            (λ k. (refl, ground (arith, format-lem (text_of m.version)), k))
            (λ k. (
              ground (arith, format-lem (text_of m.version)),
              k,
              sort-IsSorted (ms ++ m ∷ []),
              sort-IsDistinct (ms ++ m ∷ []) (append-IsDistinct ms m k h),
              λ v. registered-sort v (ms ++ m ∷ []) ∙ registered-append v ms m,
            ))
