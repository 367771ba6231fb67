-- ===== src/FolderSync/Walk.antt =====
-- `LocalFolderChangeDetector.walk` (src/services/local-folder-change-detector.ts) over the folder
-- as a tree.
use personal_knowledge_mcp.Base.{
  List, List-discrete, Option, Text, [], false, if◌then◌else◌, none, some, ℕ_discrete, ◌++◌, ◌∷◌,
}
use personal_knowledge_mcp.FolderSync.Detector.{Snapshot}
use personal_knowledge_mcp.FolderSync.Eligibility.{
  FileEligibilityOptions, RelPath, should_descend_dir, should_include_file,
}
use personal_knowledge_mcp.JsMap.Defs.{set}
use mathlib.Core.Option

mutual
  pub data Listing : Type 0 where
    unreadable : Listing
    entries : Entries → Listing

  pub data Entries : Type 0 where
    nil : Entries
    cons : Entry → Entries → Entries

  pub data Entry : Type 0 where
    symlink : Text → Entry
    directory : Text → Listing → Entry
    file : Text → Entry
    special : Text → Entry

abbrev pub RelPath-discrete : Discrete RelPath
RelPath-discrete = List-discrete (List-discrete ℕ_discrete)

module _ (opts : FileEligibilityOptions) where
  -- What the walk records of a file.
  unfoldable pub file_snapshot : RelPath → Text → Option Snapshot
  file_snapshot rel_path name =
      Option.map (λ st. record { size_bytes = st.size; mtime_ms = st.mtime_ms })
        (should_include_file rel_path (record { name = name; is_dir = false; is_symlink = false })
          opts)

  abbrev pub put_file :
      RelPath → Option Snapshot → List (RelPath × Snapshot) → List (RelPath × Snapshot)
  put_file rel_path none out = out
  put_file rel_path (some snap) out = set RelPath-discrete rel_path snap out

  unfoldable mutual
    pub walk : RelPath → Listing → List (RelPath × Snapshot) → List (RelPath × Snapshot)
    walk dir unreadable out = out
    walk dir (entries es) out = walk_entries dir es out

    pub walk_entries : RelPath → Entries → List (RelPath × Snapshot) → List (RelPath × Snapshot)
    walk_entries dir nil out = out
    walk_entries dir (cons e es) out = walk_entries dir es (walk_entry dir e out)

    pub walk_entry : RelPath → Entry → List (RelPath × Snapshot) → List (RelPath × Snapshot)
    walk_entry dir (symlink name) out = out
    walk_entry dir (directory name listing) out =
        let walked = walk (dir ++ name ∷ []) listing out in
        if should_descend_dir (dir ++ name ∷ []) name opts.is_ignored then walked else out
    walk_entry dir (file name) out =
        put_file (dir ++ name ∷ []) (file_snapshot (dir ++ name ∷ []) name) out
    walk_entry dir (special name) out = out
