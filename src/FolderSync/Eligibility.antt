-- ===== src/FolderSync/Eligibility.antt =====
-- Which directories are walked and which files count (src/ingestion/file-eligibility.ts), over
-- paths as lists of names. What the .gitignore filter, `stat` and `toLowerCase` answer is given.
use personal_knowledge_mcp.Base.{
  Bool, List, Option, Text, [], codes, ends_with, false, if◌then◌else◌, ltb, member, none, not,
  some, starts_with, ℕ, ◌==◌, ◌||◌, ◌∷◌,
}

abbrev pub RelPath : Type 0
RelPath = List Text

abbrev pub default_exclusion_dir_names : List Text
default_exclusion_dir_names =
    codes "node_modules" ∷ codes "dist" ∷ codes "build" ∷ codes "bin" ∷ codes "obj" ∷ []

abbrev pub default_exclusion_file_names : List Text
default_exclusion_file_names = codes "package-lock.json" ∷ codes "yarn.lock" ∷ []

abbrev pub vcs_metadata_dir_names : List Text
vcs_metadata_dir_names =
    codes ".git" ∷ codes ".hg" ∷ codes ".svn" ∷ codes ".bzr" ∷ codes "_darcs" ∷ []

abbrev pub default_max_file_size_bytes : ℕ
default_max_file_size_bytes = 1048576

pub record DirEntryLike : Type 0 where
  pub name : Text
  pub is_dir : Bool
  pub is_symlink : Bool

pub record Stats : Type 0 where
  pub is_file : Bool
  pub size : ℕ
  pub mtime_ms : ℕ

pub record FileEligibilityOptions : Type 0 where
  pub is_ignored : RelPath → Bool
  pub extensions : List Text
  pub max_size_bytes : ℕ
  pub stat : RelPath → Option Stats
  pub to_lower_case : Text → Text

unfoldable pub should_descend_dir : RelPath → Text → (RelPath → Bool) → Bool
should_descend_dir abs_dir_path dir_name is_ignored =
    if member dir_name vcs_metadata_dir_names
    then false
    else if member dir_name default_exclusion_dir_names
    then false
    else if starts_with (codes ".") dir_name
    then false
    else not (is_ignored abs_dir_path)

-- `name.substring(name.lastIndexOf("."))`, and nothing where there is no dot.
unfoldable pub extension : Text → Text
extension [] = []
extension (c ∷ name) = elim (extension name) [
  | [] ↦ if c == b'.' then c ∷ name else []
  | d ∷ rest ↦ d ∷ rest
]

-- What `stat` answers about a file whose name and path are accepted.
abbrev pub checked_stats : ℕ → Option Stats → Option Stats
checked_stats max_size_bytes none = none
checked_stats max_size_bytes (some st) =
    if not st.is_file then none else if ltb max_size_bytes st.size then none else some st

-- The stats of an eligible file, none of another.
unfoldable pub should_include_file : RelPath → DirEntryLike → FileEligibilityOptions → Option Stats
unfolding extension
should_include_file abs_path ent opts =
    if ent.is_symlink
    then none
    else if starts_with (codes ".") ent.name
    then none
    else if member ent.name default_exclusion_file_names
    then none
    else if ends_with (codes ".min.js") ent.name || ends_with (codes ".min.css") ent.name
    then none
    else if not (member (opts.to_lower_case (extension ent.name)) opts.extensions)
    then none
    else if opts.is_ignored abs_path
    then none
    else checked_stats opts.max_size_bytes (opts.stat abs_path)
