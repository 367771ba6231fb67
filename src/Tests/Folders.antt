-- ===== src/Tests/Folders.antt =====
-- Local folders on a small tree (src/services/local-folder-change-detector.ts,
-- src/ingestion/file-eligibility.ts).
use personal_knowledge_mcp.Base.{
  List, List-discrete, [], codes, false, none, refl, some, true, ℕ, ℕ_discrete, ◌∷◌, ◌≡◌,
}
use personal_knowledge_mcp.FolderSync.Detector.{
  ManifestEntry, Snapshot, added, deleted, deletions, detect, examine, examine_all, modified,
}
use personal_knowledge_mcp.FolderSync.Eligibility.{RelPath, should_descend_dir, should_include_file}
use personal_knowledge_mcp.FolderSync.Folder.{Surroundings, detect_folder, detect_options}
use personal_knowledge_mcp.FolderSync.Settled.{detect_settled}
use personal_knowledge_mcp.FolderSync.Walk.{
  Listing, RelPath-discrete, cons, directory, entries, file, file_snapshot, nil, walk,
}
use personal_knowledge_mcp.FolderSync.Walked.{walk_exact}
use personal_knowledge_mcp.JsMap.Defs.{get, has, set}

program : Unit {0}
unfolding detect_folder should_include_file should_descend_dir walk file_snapshot set get
    examine_all deletions examine has ℕ_discrete List-discrete
program = tt

abbrev a_ts : RelPath
a_ts = codes "src" ∷ codes "a.ts" ∷ []

abbrev b_ts : RelPath
b_ts = codes "b.ts" ∷ []

abbrev old_ts : RelPath
old_ts = codes "old.ts" ∷ []

abbrev folder : Listing
folder = entries (
    cons (directory (codes "dist") (entries (cons (file (codes "c.ts")) nil))) (
      cons (directory (codes "src") (entries (cons (file (codes "a.ts")) nil)))
        (cons (file (codes "b.ts")) (cons (file (codes "x.min.js")) nil))))

-- Every file has ten bytes and the hash 7.
abbrev surroundings : Surroundings ℕ
surroundings = record {
  is_ignored = λ p. false;
  stat = λ p. some (record { is_file = true; size = 10; mtime_ms = 5 });
  stream_sha256 = λ p. some 7;
  to_lower_case = λ s. s;
  default_extensions = codes ".ts" ∷ codes ".js" ∷ [];
}

abbrev prior : List (RelPath × ManifestEntry ℕ)
prior =
    (b_ts, record { sha256 = 3; size_bytes = 9; mtime_ms = 4 })
    ∷ (old_ts, record { sha256 = 3; size_bytes = 9; mtime_ms = 4 })
    ∷ []

folder_changes :
    (detect_folder ℕ_discrete surroundings false [] prior folder).changes
    ≡ record { path = a_ts; status = added }
      ∷ record { path = b_ts; status = modified }
      ∷ record { path = old_ts; status = deleted }
      ∷ []
unfolding program
folder_changes = refl

walk_exact_example :
    get RelPath-discrete
      (codes "dist" ∷ codes "c.ts" ∷ [])
      (walk (detect_options ℕ_discrete surroundings []) [] folder [])
    ≡ none
unfolding program
walk_exact_example =
    walk_exact (detect_options ℕ_discrete surroundings []) (codes "dist" ∷ codes "c.ts" ∷ []) folder

abbrev snapshots : List (ℕ × Snapshot)
snapshots = (1, record { size_bytes = 10; mtime_ms = 5 }) ∷ []

detect_settled_example :
    (detect ℕ_discrete ℕ_discrete
      (λ p. some p)
      true
      (detect ℕ_discrete ℕ_discrete (λ p. some p) true [] snapshots).next_manifest_files
      snapshots).changes
    ≡ []
unfolding program
detect_settled_example =
    detect_settled ℕ_discrete ℕ_discrete (λ p. some p) true [] snapshots tt (refl, tt) (λ p n e. cc)
