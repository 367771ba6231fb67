-- ===== src/FolderSync/Settled.antt =====
-- A second detection right after the first (src/services/local-folder-change-detector.ts).
use personal_knowledge_mcp.Base.{
  Bool, List, Option, [], arith, false, none, refl, some, ◌++◌, ◌∙◌, ◌∷◌, ◌≡◌, ◌≢◌,
}
use personal_knowledge_mcp.FolderSync.Detector.{
  FileChange, ManifestEntry, Snapshot, detect, examine, examine_all,
}
use personal_knowledge_mcp.FolderSync.Diff.{changes_at, detect_exact, expected, expected_entry}
use personal_knowledge_mcp.JsMap.Defs.{get, has}
use personal_knowledge_mcp.JsMap.Laws.{IsMap}

module _ {P : Type 0} (dec : Discrete P) where
  changes-nil : (cs : List (FileChange P)) → ((p : P) → changes_at dec p cs ≡ []) → cs ≡ []
  changes-nil [] h = refl
  changes-nil (c ∷ cs) h = ground (arith, h c.path)

module _ {P H : Type 0} (dec : Discrete P) (dec_hash : Discrete H) (hash : P → Option H)
    (paranoid : Bool) where
  has-examine :
      (p q : P) (prior : Option (ManifestEntry H)) (snap : Snapshot)
      (next : List (P × ManifestEntry H))
      → p ≢ q
      → has dec p ((examine dec_hash hash paranoid q prior snap).1 ++ next) ≡ has dec p next
  unfolding examine has get
  has-examine p q none snap next h = ground arith
  has-examine p q (some e) snap next h = ground arith

  has-examine_all :
      (p : P) (prior : List (P × ManifestEntry H)) (current : List (P × Snapshot))
      → has dec p current ≡ false
      → has dec p (examine_all dec dec_hash hash paranoid prior current).next_manifest_files ≡ false
  unfolding examine_all has get
  has-examine_all p prior [] h = refl
  has-examine_all p prior ((q, snap) ∷ current) h = ground (
    arith,
    has-examine p q (get dec q prior) snap
        (examine_all dec dec_hash hash paranoid prior current).next_manifest_files,
    has-examine_all p prior current,
  )

  examine-IsMap :
      (q : P) (prior : Option (ManifestEntry H)) (snap : Snapshot)
      (next : List (P × ManifestEntry H))
      → has dec q next ≡ false
      → IsMap dec next
      → IsMap dec ((examine dec_hash hash paranoid q prior snap).1 ++ next)
  unfolding examine has get
  examine-IsMap q none snap next h k = ground arith
  examine-IsMap q (some e) snap next h k = ground arith

  -- The next manifest has one entry at most of a path.
  examine_all-IsMap :
      (prior : List (P × ManifestEntry H)) (current : List (P × Snapshot))
      → IsMap dec current
      → IsMap dec (examine_all dec dec_hash hash paranoid prior current).next_manifest_files
  unfolding examine_all
  examine_all-IsMap prior [] h = tt
  examine_all-IsMap prior ((q, snap) ∷ current) h =
      examine-IsMap q (get dec q prior) snap
        (examine_all dec dec_hash hash paranoid prior current).next_manifest_files
        (has-examine_all q prior current h.0) (examine_all-IsMap prior current h.1)

  expected-settled :
      (prior : Option (ManifestEntry H)) (current : Option Snapshot) (h : Option H)
      → (current ≢ none → h ≢ none)
      → expected dec dec_hash hash paranoid
          (expected_entry dec dec_hash hash paranoid prior current h)
          current
          h
        ≡ []
  expected-settled prior none h k = refl
  expected-settled prior (some snap) none k = absurd (k (λ e. cc) refl)
  expected-settled none (some snap) (some x) k = ground arith
  expected-settled (some e) (some snap) (some x) k = ground arith

  -- If neither the manifest nor the snapshot has a path twice and every file of the snapshot can
  -- be hashed, a second detection of the same snapshot, against the manifest that the first one
  -- made, reports nothing, in paranoid mode too.
  pub detect_settled :
      (prior : List (P × ManifestEntry H)) (current : List (P × Snapshot))
      → IsMap dec prior
      → IsMap dec current
      → ((p : P) → get dec p current ≢ none → hash p ≢ none)
      → (detect dec dec_hash hash paranoid
          (detect dec dec_hash hash paranoid prior current).next_manifest_files
          current).changes
        ≡ []
  unfolding detect
  detect_settled prior current h k readable =
      changes-nil dec
        (detect dec dec_hash hash paranoid
          (detect dec dec_hash hash paranoid prior current).next_manifest_files current).changes
        (λ p.
          (detect_exact dec dec_hash hash paranoid p
            (detect dec dec_hash hash paranoid prior current).next_manifest_files current
            (examine_all-IsMap prior current k) k).0
          ∙ rw (detect_exact dec dec_hash hash paranoid p prior current h k).1
              (expected-settled (get dec p prior) (get dec p current) (hash p) (readable p)))
