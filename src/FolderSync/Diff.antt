-- ===== src/FolderSync/Diff.antt =====
-- The detected changes against the difference of the two manifests
-- (src/services/local-folder-change-detector.ts).
-- What is reported of a path.
use personal_knowledge_mcp.Base.{
  Bool, List, Option, [], append-nil, arith, if◌then◌else◌, is_some, ite, none, not, refl, some,
  ℕ_discrete, ◌++◌, ◌||◌, ◌∷◌, ◌≡◌,
}
use personal_knowledge_mcp.FolderSync.Detector.{
  ChangeStatus, FileChange, ManifestEntry, Snapshot, added, deleted, deletions, detect, examine,
  examine_all, modified,
}
use personal_knowledge_mcp.JsMap.Defs.{get, has}
use personal_knowledge_mcp.JsMap.Laws.{IsMap}
use mathlib.Core.Option.{or_else}

module _ {P : Type 0} (dec : Discrete P) where
  abbrev pub changes_at : P → List (FileChange P) → List ChangeStatus
  changes_at p [] = []
  changes_at p (c ∷ cs) = ite (dec c.path p) (c.status ∷ changes_at p cs) (changes_at p cs)

  changes_at-append :
      (p : P) (a b : List (FileChange P)) → changes_at p (a ++ b) ≡ changes_at p a ++ changes_at p b
  changes_at-append p [] b = refl
  changes_at-append p (c ∷ a) b = ground (arith, changes_at-append p a b)

module _ {P H : Type 0} (dec : Discrete P) (dec_hash : Discrete H) (hash : P → Option H)
    (paranoid : Bool) where
  -- One thing if size and modification time agree, and another if not.
  abbrev pub unless_same {ℓ} : {A : Type ℓ} → ManifestEntry H → Snapshot → A → A → A
  unless_same e snap x y =
      ite (ℕ_discrete e.size_bytes snap.size_bytes) (ite (ℕ_discrete e.mtime_ms snap.mtime_ms) x y)
        y

  abbrev pub fresh_entry : Snapshot → Option H → Option (ManifestEntry H)
  fresh_entry snap none = none
  fresh_entry snap (some h) =
      some (record { sha256 = h; size_bytes = snap.size_bytes; mtime_ms = snap.mtime_ms })

  -- What should be reported of a path, from what the manifest and the folder hold of it.
  abbrev pub compared : ManifestEntry H → Option H → List ChangeStatus
  compared e none = modified ∷ []
  compared e (some h) = ite (dec_hash e.sha256 h) [] (modified ∷ [])

  abbrev pub expected : Option (ManifestEntry H) → Option Snapshot → Option H → List ChangeStatus
  expected none none h = []
  expected (some e) none h = deleted ∷ []
  expected none (some snap) h = added ∷ []
  expected (some e) (some snap) h =
      if paranoid then compared e h else unless_same e snap [] (compared e h)

  -- The entry of the next manifest.
  abbrev pub expected_entry :
      Option (ManifestEntry H) → Option Snapshot → Option H → Option (ManifestEntry H)
  expected_entry prior none h = none
  expected_entry none (some snap) h = fresh_entry snap h
  expected_entry (some e) (some snap) h =
      if paranoid then fresh_entry snap h else unless_same e snap (some e) (fresh_entry snap h)

  examine-changes_at :
      (p q : P) (prior : Option (ManifestEntry H)) (snap : Snapshot)
      → changes_at dec p (examine dec_hash hash paranoid q prior snap).0
        ≡ ite (dec q p) (expected prior (some snap) (hash q)) []
  unfolding examine
  examine-changes_at p q none snap = ground arith
  examine-changes_at p q (some e) snap = ground arith

  examine-entry :
      (p q : P) (prior : Option (ManifestEntry H)) (snap : Snapshot)
      (next : List (P × ManifestEntry H))
      → get dec p ((examine dec_hash hash paranoid q prior snap).1 ++ next)
        ≡ ite
            (dec q p)
            (or_else (expected_entry prior (some snap) (hash q)) (get dec p next))
            (get dec p next)
  unfolding examine get or_else
  examine-entry p q none snap next = ground arith
  examine-entry p q (some e) snap next = ground arith

  or_else-none {ℓ} : {A : Type ℓ} (a : Option A) → or_else a none ≡ a
  unfolding or_else
  or_else-none none = refl
  or_else-none (some a) = refl

  -- What the first pass reports.
  abbrev found : Option (ManifestEntry H) → Option Snapshot → Option H → List ChangeStatus
  found prior none h = []
  found prior (some snap) h = expected prior (some snap) h

  examine_all-changes_at :
      (p : P) (prior : List (P × ManifestEntry H)) (current : List (P × Snapshot))
      → IsMap dec current
      → changes_at dec p (examine_all dec dec_hash hash paranoid prior current).changes
        ≡ found (get dec p prior) (get dec p current) (hash p)
  unfolding examine_all get has
  examine_all-changes_at p prior [] h = refl
  examine_all-changes_at p prior ((q, snap) ∷ current) h = ground (
    arith,
    changes_at-append dec p (examine dec_hash hash paranoid q (get dec q prior) snap).0
        (examine_all dec dec_hash hash paranoid prior current).changes,
    examine-changes_at p q (get dec q prior) snap,
    examine_all-changes_at p prior current,
  )

  deletions-changes_at :
      (p : P) (current : List (P × Snapshot)) (prior : List (P × ManifestEntry H))
      → IsMap dec prior
      → changes_at dec p (deletions dec current prior)
        ≡ (if has dec p current || not (has dec p prior) then [] else deleted ∷ [])
  unfolding deletions get has
  deletions-changes_at p current [] h = ground arith
  deletions-changes_at p current ((q, e) ∷ prior) h =
      ground (arith, deletions-changes_at p current prior)

  pub examine_all-entry :
      (p : P) (prior : List (P × ManifestEntry H)) (current : List (P × Snapshot))
      → IsMap dec current
      → get dec p (examine_all dec dec_hash hash paranoid prior current).next_manifest_files
        ≡ expected_entry (get dec p prior) (get dec p current) (hash p)
  unfolding examine_all get has
  examine_all-entry p prior [] h = refl
  examine_all-entry p prior ((q, snap) ∷ current) h = ground (
    arith,
    examine-entry p q (get dec q prior) snap
        (examine_all dec dec_hash hash paranoid prior current).next_manifest_files,
    or_else-none (expected_entry (get dec q prior) (some snap) (hash q)),
    examine_all-entry p prior current,
  )

  found-append :
      (prior : Option (ManifestEntry H)) (current : Option Snapshot) (h : Option H)
      → found prior current h
          ++ (if is_some current || not (is_some prior) then [] else deleted ∷ [])
        ≡ expected prior current h
  found-append none none h = refl
  found-append none (some snap) h = refl
  found-append (some e) none h = refl
  found-append (some e) (some snap) h = append-nil (expected (some e) (some snap) h)

  -- exact
  pub detect_exact :
      (p : P) (prior : List (P × ManifestEntry H)) (current : List (P × Snapshot))
      → IsMap dec prior
      → IsMap dec current
      → (changes_at dec p (detect dec dec_hash hash paranoid prior current).changes
          ≡ expected (get dec p prior) (get dec p current) (hash p))
        × (get dec p (detect dec dec_hash hash paranoid prior current).next_manifest_files
            ≡ expected_entry (get dec p prior) (get dec p current) (hash p))
  unfolding detect has
  detect_exact p prior current h k = (
    rw
        (
          changes_at-append dec p (examine_all dec dec_hash hash paranoid prior current).changes
              (deletions dec current prior),
          examine_all-changes_at p prior current k,
          deletions-changes_at p current prior h,
        )
        (found-append (get dec p prior) (get dec p current) (hash p)),
    examine_all-entry p prior current k,
  )
