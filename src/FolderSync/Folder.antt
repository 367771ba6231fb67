-- ===== src/FolderSync/Folder.antt =====
-- The detection over a folder as a tree, walk included
-- (src/services/local-folder-change-detector.ts).
use personal_knowledge_mcp.Base.{
  Bool, Bool-cases, List, Option, Text, [], if◌then◌else◌, inl, inr, map, none, some, ◌++◌, ◌∷◌,
}
use personal_knowledge_mcp.FolderSync.Detector.{
  ChangeDetectionResult, ManifestEntry, Snapshot, detect,
}
use personal_knowledge_mcp.FolderSync.Eligibility.{
  FileEligibilityOptions, RelPath, Stats, default_max_file_size_bytes, should_descend_dir,
}
use personal_knowledge_mcp.FolderSync.Rules.{indexed_snapshot}
use personal_knowledge_mcp.FolderSync.Walk.{
  Entries, Entry, Listing, RelPath-discrete, cons, directory, entries, file, file_snapshot, nil,
  put_file, special, symlink, unreadable, walk, walk_entries, walk_entry,
}
use personal_knowledge_mcp.FolderSync.Walked.{base_name, holds}
use personal_knowledge_mcp.JsMap.Laws.{IsMap, set-IsMap}

-- What the detection reads of the file system and of the language, and the scanner's extensions.
pub record Surroundings (H : Type 0) : Type 0 where
  pub is_ignored : RelPath → Bool
  pub stat : RelPath → Option Stats
  pub stream_sha256 : RelPath → Option H
  pub to_lower_case : Text → Text
  pub default_extensions : List Text

put_file-IsMap :
    (opts : FileEligibilityOptions) (path : RelPath) (snap : Option Snapshot)
    (out : List (RelPath × Snapshot))
    → IsMap RelPath-discrete out
    → IsMap RelPath-discrete (put_file opts path snap out)
put_file-IsMap opts path none out h = h
put_file-IsMap opts path (some snap) out h = set-IsMap RelPath-discrete path snap out h

mutual
  unfolding walk

  walk-IsMap :
      (opts : FileEligibilityOptions) (dir : RelPath) (l : Listing)
      (out : List (RelPath × Snapshot))
      → IsMap RelPath-discrete out
      → IsMap RelPath-discrete (walk opts dir l out)
  walk-IsMap opts dir unreadable out h = h
  walk-IsMap opts dir (entries es) out h = walk_entries-IsMap opts dir es out h

  walk_entries-IsMap :
      (opts : FileEligibilityOptions) (dir : RelPath) (es : Entries)
      (out : List (RelPath × Snapshot))
      → IsMap RelPath-discrete out
      → IsMap RelPath-discrete (walk_entries opts dir es out)
  walk_entries-IsMap opts dir nil out h = h
  walk_entries-IsMap opts dir (cons e es) out h =
      walk_entries-IsMap opts dir es (walk_entry opts dir e out) (walk_entry-IsMap opts dir e out h)

  walk_entry-IsMap :
      (opts : FileEligibilityOptions) (dir : RelPath) (e : Entry) (out : List (RelPath × Snapshot))
      → IsMap RelPath-discrete out
      → IsMap RelPath-discrete (walk_entry opts dir e out)
  walk_entry-IsMap opts dir (symlink name) out h = h
  walk_entry-IsMap opts dir (directory name l) out h =
      elim (Bool-cases (should_descend_dir (dir ++ name ∷ []) name opts.is_ignored)) [
        | inl e ↦ rw e (walk-IsMap opts (dir ++ name ∷ []) l out h)
        | inr e ↦ rw e h
      ]
  walk_entry-IsMap opts dir (file name) out h =
      put_file-IsMap opts (dir ++ name ∷ []) (file_snapshot opts (dir ++ name ∷ []) name) out h
  walk_entry-IsMap opts dir (special name) out h = h

module _ {H : Type 0} (dec_hash : Discrete H) (s : Surroundings H) where
  -- The options that `detect` builds from the repository's extensions.
  unfoldable pub detect_options : List Text → FileEligibilityOptions
  detect_options include_extensions = record {
    is_ignored = s.is_ignored;
    extensions =
        map s.to_lower_case
          (elim include_extensions [ [] ↦ s.default_extensions | e ∷ es ↦ e ∷ es ]);
    max_size_bytes = default_max_file_size_bytes;
    stat = s.stat;
    to_lower_case = s.to_lower_case;
  }

  unfoldable pub detect_folder :
      Bool
      → List Text
      → List (RelPath × ManifestEntry H)
      → Listing
      → ChangeDetectionResult RelPath H
  unfolding detect_options walk detect
  detect_folder paranoid include_extensions prior folder =
      detect RelPath-discrete dec_hash s.stream_sha256 paranoid prior
        (walk (detect_options include_extensions) [] folder [])

  -- The snapshot that a path should have.
  abbrev pub expected_snapshot : List Text → RelPath → Listing → Option Snapshot
  expected_snapshot extensions p folder =
      if holds s.is_ignored p [] folder
      then indexed_snapshot s.is_ignored s.stat s.to_lower_case
          (map s.to_lower_case (elim extensions [ [] ↦ s.default_extensions | e ∷ es ↦ e ∷ es ]))
          1048576 p (base_name p)
      else none
