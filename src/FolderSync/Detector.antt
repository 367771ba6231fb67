-- ===== src/FolderSync/Detector.antt =====
-- `LocalFolderChangeDetector.detect` (src/services/local-folder-change-detector.ts) from the walked
-- snapshot on, over paths and hashes with decidable equality. Hashing a file is a parameter: it
-- gives the hash of what the file holds, or nothing where reading fails.
use personal_knowledge_mcp.Base.{
  Bool, List, Option, [], false, if◌then◌else◌, ite, none, not, some, ℕ, ◌&&◌, ◌++◌, ◌==◌, ◌∷◌,
}
use personal_knowledge_mcp.JsMap.Defs.{get, has}

pub record ManifestEntry (H : Type 0) : Type 0 where
  pub sha256 : H
  pub size_bytes : ℕ
  pub mtime_ms : ℕ

pub record Snapshot : Type 0 where
  pub size_bytes : ℕ
  pub mtime_ms : ℕ

pub data ChangeStatus : Type 0 where
  added modified deleted : ChangeStatus

pub record FileChange (P : Type 0) : Type 0 where
  pub path : P
  pub status : ChangeStatus

pub record ChangeDetectionResult (P H : Type 0) : Type 0 where
  pub changes : List (FileChange P)
  pub next_manifest_files : List (P × ManifestEntry H)

-- `fastPathMatch`
abbrev pub fast_path_match : {H : Type 0} → Bool → Option (ManifestEntry H) → Snapshot → Bool
fast_path_match paranoid none snap = false
fast_path_match paranoid (some e) snap =
    not paranoid && e.size_bytes == snap.size_bytes && e.mtime_ms == snap.mtime_ms

abbrev pub fingerprint : {H : Type 0} → H → Snapshot → ManifestEntry H
fingerprint h snap = record { sha256 = h; size_bytes = snap.size_bytes; mtime_ms = snap.mtime_ms }

abbrev pub carried : {P H : Type 0} → P → Option (ManifestEntry H) → List (P × ManifestEntry H)
carried path none = []
carried path (some e) = (path, e) ∷ []

module _ {P H : Type 0} (dec_hash : Discrete H) (hash : P → Option H) (paranoid : Bool) where
  -- The changes and the manifest entries of one file, once it has been hashed or could not be.
  abbrev pub hashed :
      P
      → Option (ManifestEntry H)
      → Snapshot
      → Option H
      → List (FileChange P) × List (P × ManifestEntry H)
  hashed path none snap none = (record { path = path; status = added } ∷ [], [])
  hashed path (some e) snap none = (record { path = path; status = modified } ∷ [], [])
  hashed path none snap (some h) =
      (record { path = path; status = added } ∷ [], (path, fingerprint h snap) ∷ [])
  hashed path (some e) snap (some h) = (
    ite (dec_hash e.sha256 h) [] (record { path = path; status = modified } ∷ []),
    (path, fingerprint h snap) ∷ [],
  )

  -- One round of the first pass.
  unfoldable pub examine :
      P → Option (ManifestEntry H) → Snapshot → List (FileChange P) × List (P × ManifestEntry H)
  examine path prior snap =
      if fast_path_match paranoid prior snap
      then ([], carried path prior)
      else hashed path prior snap (hash path)

module _ {P H : Type 0} (dec : Discrete P) where
  -- The second pass, over the paths of the prior manifest.
  unfoldable pub deletions : List (P × Snapshot) → List (P × ManifestEntry H) → List (FileChange P)
  deletions current [] = []
  deletions current ((path, e) ∷ prior) =
      let rest = deletions current prior in
      if has dec path current then rest else record { path = path; status = deleted } ∷ rest

module _ {P H : Type 0} (dec : Discrete P) (dec_hash : Discrete H) (hash : P → Option H)
    (paranoid : Bool) where
  -- The first pass. A path stands once in the snapshot, so that writing its entry appends it.
  unfoldable pub examine_all :
      List (P × ManifestEntry H) → List (P × Snapshot) → ChangeDetectionResult P H
  examine_all prior [] = record { changes = []; next_manifest_files = [] }
  examine_all prior ((path, snap) ∷ current) =
      let (changes, entries) = examine dec_hash hash paranoid path (get dec path prior) snap in
      let rest = examine_all prior current in
      record {
        changes = changes ++ rest.changes;
        next_manifest_files = entries ++ rest.next_manifest_files;
      }

  unfoldable pub detect :
      List (P × ManifestEntry H) → List (P × Snapshot) → ChangeDetectionResult P H
  unfolding examine_all deletions
  detect prior current =
      let seen = examine_all prior current in
      record seen { changes = seen.changes ++ deletions dec current prior }
