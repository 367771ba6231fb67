-- ===== src/FolderSync/Rules.antt =====
-- Which files of a folder should count, said once more without the code's tests
-- (src/ingestion/file-eligibility.ts, src/services/local-folder-change-detector.ts).
use personal_knowledge_mcp.Base.{
  Bool, List, Option, Text, [], arith, codes, ends_with, false, if◌then◌else◌, leb, member, none,
  not, refl, some, starts_with, true, ℕ, ◌&&◌, ◌==◌, ◌||◌, ◌∙◌, ◌∷◌, ◌≡◌,
}
use personal_knowledge_mcp.FolderSync.Detector.{Snapshot}
use personal_knowledge_mcp.FolderSync.Eligibility.{
  FileEligibilityOptions, RelPath, Stats, checked_stats, extension, should_descend_dir,
  should_include_file,
}
use personal_knowledge_mcp.FolderSync.Walk.{file_snapshot}
use mathlib.Core.Option

abbrev is_hidden : Text → Bool
is_hidden name = starts_with (codes ".") name

abbrev skipped_dirs : List Text
skipped_dirs = codes "node_modules" ∷ codes "dist" ∷ codes "build" ∷ codes "bin" ∷ codes "obj" ∷ []

abbrev history_dirs : List Text
history_dirs = codes ".git" ∷ codes ".hg" ∷ codes ".svn" ∷ codes ".bzr" ∷ codes "_darcs" ∷ []

abbrev pub is_walked : (RelPath → Bool) → RelPath → Text → Bool
is_walked is_ignored dir name =
    not (is_ignored dir)
    && (not (is_hidden name) && (not (member name skipped_dirs) && not (member name history_dirs)))

guards :
    (a b c d : Bool)
    → (if a then false else if b then false else if c then false else d)
      ≡ (d && (not c && (not b && not a)))
guards a b c d = ground arith

pub descend-is_walked :
    (dir : RelPath) (name : Text) (is_ignored : RelPath → Bool)
    → should_descend_dir dir name is_ignored ≡ is_walked is_ignored dir name
unfolding should_descend_dir
descend-is_walked dir name is_ignored =
    guards (member name history_dirs) (member name skipped_dirs) (is_hidden name)
      (not (is_ignored dir))

-- What follows the last dot, with the dot, in one pass over the name.
abbrev pub suffix_from : Text → Text → Text
suffix_from found [] = found
suffix_from found (c ∷ name) = suffix_from (if c == b'.' then c ∷ name else found) name

abbrev over : Text → Text → Text
over found [] = found
over found (d ∷ rest) = d ∷ rest

over-cons :
    (b : Bool) (c : ℕ) (found name e : Text)
    → over (if b then c ∷ name else found) e
      ≡ over found (elim e [ [] ↦ if b then c ∷ name else [] | d ∷ rest ↦ d ∷ rest ])
over-cons true c found name [] = refl
over-cons false c found name [] = refl
over-cons b c found name (d ∷ rest) = refl

suffix-extension : (found name : Text) → suffix_from found name ≡ over found (extension name)
unfolding extension
suffix-extension found [] = refl
suffix-extension found (c ∷ name) =
    suffix-extension (if c == b'.' then c ∷ name else found) name
    ∙ over-cons (c == b'.') c found name (extension name)

over-nil : (e : Text) → over [] e ≡ e
over-nil [] = refl
over-nil (d ∷ rest) = refl

suffix-lem : (name : Text) → suffix_from [] name ≡ extension name
suffix-lem name = suffix-extension [] name ∙ over-nil (extension name)

abbrev locks : List Text
locks = codes "package-lock.json" ∷ codes "yarn.lock" ∷ []

abbrev is_minified : Text → Bool
is_minified name = ends_with (codes ".min.js") name || ends_with (codes ".min.css") name

-- A regular file that is not too large.
abbrev sized : ℕ → Option Stats → Option Snapshot
sized max_size none = none
sized max_size (some st) =
    if st.is_file && leb st.size max_size
    then some (record { size_bytes = st.size; mtime_ms = st.mtime_ms })
    else none

module _ (is_ignored : RelPath → Bool) (stat : RelPath → Option Stats) (to_lower_case : Text → Text)
    (extensions : List Text) (max_size : ℕ) where
  abbrev is_accepted : RelPath → Text → Bool
  is_accepted path name =
      not (is_hidden name)
      && (not (member name locks)
          && (not (is_minified name)
              && (member (to_lower_case (suffix_from [] name)) extensions
                  && not (is_ignored path))))

  abbrev pub indexed_snapshot : RelPath → Text → Option Snapshot
  indexed_snapshot path name = if is_accepted path name then sized max_size (stat path) else none

abbrev snapshot_of : Option Stats → Option Snapshot
snapshot_of o = Option.map (λ st. record { size_bytes = st.size; mtime_ms = st.mtime_ms }) o

-- The tests of a file, one after the other.
refusals :
    (a b c d e : Bool) (r : Option Stats) (want : Option Snapshot)
    → snapshot_of r ≡ want
    → snapshot_of (
        if a
        then none
        else if b
        then none
        else if c
        then none
        else if not d
        then none
        else if e
        then none
        else r)
      ≡ (if not a && (not b && (not c && (d && not e))) then want else none)
refusals a b c d e r want h = ground arith

checked-sized :
    (max_size : ℕ) (o : Option Stats) → snapshot_of (checked_stats max_size o) ≡ sized max_size o
checked-sized max_size none = refl
checked-sized max_size (some st) = ground arith

pub snapshot-indexed_snapshot :
    (opts : FileEligibilityOptions) (path : RelPath) (name : Text)
    → file_snapshot opts path name
      ≡ indexed_snapshot opts.is_ignored opts.stat opts.to_lower_case opts.extensions
          opts.max_size_bytes path name
unfolding file_snapshot should_include_file
snapshot-indexed_snapshot opts path name = rw (suffix-lem name) (
    refusals (is_hidden name) (member name locks) (is_minified name)
      (member (opts.to_lower_case (extension name)) opts.extensions) (opts.is_ignored path)
      (checked_stats opts.max_size_bytes (opts.stat path))
      (sized opts.max_size_bytes (opts.stat path))
      (checked-sized opts.max_size_bytes (opts.stat path)))
