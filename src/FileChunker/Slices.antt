-- ===== src/FileChunker/Slices.antt =====
-- The chunks of a file as ranges of its lines (src/ingestion/file-chunker.ts).
use personal_knowledge_mcp.Base.{
  Bool-cases, List, Text, [], ap, append_assoc, arith, drop, drop-append, false, inl, inr, length,
  length-append, ltb, not, refl, take, take-append, true, ℕ, ◌&&◌, ◌++◌, ◌+◌, ◌-◌, ◌<◌, ◌∙◌, ◌∷◌,
  ◌≡◌, ◌≤◌,
}
use personal_knowledge_mcp.FileChunker.Chunker.{
  ChunkBoundary, estimate_tokens, get_overlap_lines, is_empty, join_lines,
  split_into_chunk_boundaries, split_loop,
}
use personal_knowledge_mcp.FileChunker.Overlap.{overlap_suffix}

-- Each chunk is not empty, and holds the lines from its first to its last line number.
abbrev pub AllSlices : List Text → List ChunkBoundary → Type 0
AllSlices lines [] = Unit
AllSlices lines (b ∷ bs) =
    (1 ≤ b.start_line)
    × (is_empty b.lines ≡ false)
    × (drop (b.start_line - 1) (take b.end_line lines) ≡ b.lines)
    × AllSlices lines bs

-- From the line after `done` on, the chunks cover the lines up to `total` with no gap, each ending
-- behind the one before it.
abbrev pub Covers : ℕ → ℕ → List ChunkBoundary → Type 0
Covers done total [] = done ≡ total
Covers done total (b ∷ bs) =
    (b.start_line ≤ done + 1) × (done < b.end_line) × Covers b.end_line total bs

slice :
    (before current rest : List Text)
    → drop (length before + 1 - 1) (take (length (before ++ current)) ((before ++ current) ++ rest))
      ≡ current
slice before current rest =
    let same : length before + 1 - 1 ≡ length before = omega arith in
    rw (same, take-append (before ++ current) rest) (drop-append before current)

regroup :
    (before p shared current : List Text) (line : Text) (rest lines : List Text)
    → lines ≡ (before ++ current) ++ (line ∷ rest)
    → current ≡ p ++ shared
    → lines ≡ ((before ++ p) ++ (shared ++ (line ∷ []))) ++ rest
regroup before p shared current line rest lines e suffix =
    e ∙ ap (λ t. (before ++ t) ++ (line ∷ rest)) suffix ∙ simp append_assoc

split-AllSlices :
    (limit overlap i : ℕ) (before current : List Text) (tokens start : ℕ) (rest lines : List Text)
    → lines ≡ (before ++ current) ++ rest
    → start ≡ length before + 1
    → i ≡ length (before ++ current)
    → AllSlices lines (split_loop limit overlap i current tokens start rest)
unfolding split_loop
split-AllSlices limit overlap i before [] tokens start [] lines e s l = tt
split-AllSlices limit overlap i before (c ∷ current) tokens start [] lines e s l =
    (omega arith, refl, rw (e, s, l) (slice before (c ∷ current) []), tt)
split-AllSlices limit overlap i before current tokens start (line ∷ rest) lines e s l =
    let shared = get_overlap_lines current overlap in
    let (p, suffix) = overlap_suffix current overlap in
    elim (Bool-cases (ltb limit (tokens + estimate_tokens line) && not (is_empty current))) [
      | inl cut ↦
          rw (cut, split_loop)
            (
              omega arith,
              ground arith,
              rw (e, s, l) (slice before current (line ∷ rest)),
              split-AllSlices limit overlap (i + 1) (before ++ p) (shared ++ (line ∷ []))
                  (estimate_tokens (join_lines (shared ++ (line ∷ [])))) (i + 1 - length shared)
                  rest lines (regroup before p shared current line rest lines e suffix)
                  (omega (
                    arith,
                    length-append before current,
                    length-append p shared,
                    length-append before p,
                    ap (length {A = Text}) suffix,
                  ))
                  (omega (
                    arith,
                    length-append before current,
                    length-append p shared,
                    length-append before p,
                    length-append (before ++ p) (shared ++ (line ∷ [])),
                    length-append shared (line ∷ []),
                    ap (length {A = Text}) suffix,
                  )),
            )
      | inr more ↦
          rw (more, split_loop)
            (split-AllSlices limit overlap (i + 1) before (current ++ (line ∷ []))
              (tokens + estimate_tokens line) start rest lines (simp (e, append_assoc)) s
              (omega (
                arith,
                length-append before current,
                length-append current (line ∷ []),
                length-append before (current ++ (line ∷ [])),
              )))
    ]

-- The chunk that is being built ends with line `i`, behind the chunks up to `done`.
abbrev IsBuilt : ℕ → ℕ → List Text → Type 0
IsBuilt done i [] = done ≡ i
IsBuilt done i (_ ∷ _) = done < i

IsBuilt-append :
    (done i : ℕ) (current : List Text) (line : Text)
    → done ≤ i
    → IsBuilt done (i + 1) (current ++ (line ∷ []))
IsBuilt-append done i [] line h = omega arith
IsBuilt-append done i (c ∷ current) line h = omega arith

built-le : (done i : ℕ) (current : List Text) → IsBuilt done i current → done ≤ i
built-le done i [] h = omega arith
built-le done i (c ∷ current) h = omega arith

ended :
    (limit done i tokens : ℕ) (current : List Text) (line : Text)
    → (ltb limit (tokens + estimate_tokens line) && not (is_empty current)) ≡ true
    → IsBuilt done i current
    → done < i
ended limit done i tokens [] line cut h = absurd (ground arith)
ended limit done i tokens (c ∷ current) line cut h = h

split-Covers :
    (limit overlap i done total : ℕ) (current : List Text) (tokens start : ℕ) (rest : List Text)
    → start ≤ done + 1
    → IsBuilt done i current
    → total ≡ i + length rest
    → Covers done total (split_loop limit overlap i current tokens start rest)
unfolding split_loop
split-Covers limit overlap i done total [] tokens start [] s h t = omega arith
split-Covers limit overlap i done total (c ∷ current) tokens start [] s h t = (s, h, omega arith)
split-Covers limit overlap i done total current tokens start (line ∷ rest) s h t =
    let shared = get_overlap_lines current overlap in
    elim (Bool-cases (ltb limit (tokens + estimate_tokens line) && not (is_empty current))) [
      | inl cut ↦
          rw (cut, split_loop)
            (
              s,
              ended limit done i tokens current line cut h,
              split-Covers limit overlap (i + 1) i total (shared ++ (line ∷ []))
                  (estimate_tokens (join_lines (shared ++ (line ∷ [])))) (i + 1 - length shared)
                  rest (omega arith) (IsBuilt-append i i shared line (omega arith)) (omega arith),
            )
      | inr more ↦
          rw (more, split_loop)
            (split-Covers limit overlap (i + 1) done total (current ++ (line ∷ []))
              (tokens + estimate_tokens line) start rest s
              (IsBuilt-append done i current line (built-le done i current h)) (omega arith))
    ]

-- The chunks of a file are ranges of its lines: each is not empty and holds exactly the lines
-- from its `startLine` to its `endLine`, counted from 1; the first starts at line 1, each starts
-- no later than the line after the one before it and ends behind it, and the last ends at the
-- last line. So no line is lost, whatever the limits.
pub split_exact :
    (lines : List Text) (limit overlap : ℕ)
    → AllSlices lines (split_into_chunk_boundaries lines limit overlap)
      × Covers 0 (length lines) (split_into_chunk_boundaries lines limit overlap)
unfolding split_into_chunk_boundaries
split_exact lines limit overlap = (
  split-AllSlices limit overlap 0 [] [] 0 1 lines lines refl refl refl,
  split-Covers limit overlap 0 0 (length lines) [] 0 1 lines (omega arith) refl (omega arith),
)
