-- ===== src/Migrations/Registry.antt =====
-- `DefaultMigrationRegistry` (src/graph/migration/MigrationRunner.ts). The comparison of versions
-- is the semver library's: `le a b` says that it gives 0 or less.
use personal_knowledge_mcp.Base.{
  Bool, List, Option, Text, [], false, if◌then◌else◌, is_some, ite, leb, none, not, or_default,
  some, ℕ, ◌&&◌, ◌++◌, ◌-◌, ◌==◌, ◌||◌, ◌∷◌,
}

pub record SchemaMigration (V : Type 0) : Type 0 where
  pub version : V
  pub description : Text
  pub statements : List Text

pub data RegistryError (V : Type 0) : Type 0 where
  invalid_version : V → RegistryError V
  duplicate_version : V → RegistryError V

pub data Registered (V : Type 0) : Type 0 where
  registered : List (SchemaMigration V) → Registered V
  refused : RegistryError V → Registered V

module _ {V : Type 0} (dec : Discrete V) where
  -- `some(m => m.version === version)` and `find`.
  unfoldable pub get_migration : V → List (SchemaMigration V) → Option (SchemaMigration V)
  get_migration v [] = none
  get_migration v (m ∷ ms) = ite (dec m.version v) (some m) (get_migration v ms)

  abbrev pub is_registered : V → List (SchemaMigration V) → Bool
  is_registered v ms = is_some (get_migration v ms)

module _ {V : Type 0} (le : V → V → Bool) where
  -- The stable sort by version.
  unfoldable pub insert_sorted :
      SchemaMigration V → List (SchemaMigration V) → List (SchemaMigration V)
  insert_sorted m [] = m ∷ []
  insert_sorted m (x ∷ xs) =
      let rest = insert_sorted m xs in if le m.version x.version then m ∷ x ∷ xs else x ∷ rest

  unfoldable pub sort_by_version : List (SchemaMigration V) → List (SchemaMigration V)
  unfolding insert_sorted
  sort_by_version [] = []
  sort_by_version (m ∷ ms) = insert_sorted m (sort_by_version ms)

-- `/^\d+\.\d+\.\d+$/`, from where so many dots are to come, a digit standing before or not.
unfoldable pub matches_format : ℕ → Bool → Text → Bool
matches_format dots seen [] = dots == 0 && seen
matches_format dots seen (c ∷ text) =
    let is_digit = leb b'0' c && leb c b'9' in
    let rest = matches_format (if is_digit then dots else dots - 1) is_digit text in
    (is_digit || c == b'.' && seen && leb 1 dots) && rest

abbrev pub is_version_format : Text → Bool
is_version_format version = matches_format 2 false version

-- A version is anything that has a text.
module _ {V : Type 0} (dec : Discrete V) (le : V → V → Bool) (text_of : V → Text) where
  unfoldable pub register : SchemaMigration V → List (SchemaMigration V) → Registered V
  unfolding get_migration sort_by_version matches_format
  register m ms =
      if not (is_version_format (text_of m.version))
      then refused (invalid_version m.version)
      else if is_registered dec m.version ms
      then refused (duplicate_version m.version)
      else registered (sort_by_version le (ms ++ m ∷ []))

-- The last of a list, which `getLatestVersion` and the results of runs read.
unfoldable pub last_version : {V : Type 0} → List (SchemaMigration V) → Option V
last_version [] = none
last_version (m ∷ []) = some m.version
last_version (m ∷ x ∷ ms) = last_version (x ∷ ms)

unfoldable pub get_latest_version : {V : Type 0} → V → List (SchemaMigration V) → V
unfolding last_version
get_latest_version zero_version ms = or_default (last_version ms) zero_version
