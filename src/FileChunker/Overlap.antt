-- ===== src/FileChunker/Overlap.antt =====
-- The overlap of two chunks (src/ingestion/file-chunker.ts).
use personal_knowledge_mcp.Base.{
  Bool-cases, List, Text, [], ap, arith, drop, drop-append, inl, inr, leb, leb→le, length,
  length-append, lt_of_not-leb, ltb, not, refl, reverse, sym, ℕ, ◌&&◌, ◌++◌, ◌+◌, ◌-◌, ◌∙◌, ◌∷◌,
  ◌≡◌, ◌≤◌, ◌⊎◌,
}
use personal_knowledge_mcp.FileChunker.Chunker.{
  estimate_tokens, get_overlap_lines, is_empty, overlap_loop,
}
use mathlib.Core.List.{reverse_aux, reverse-reverse}

-- The tokens of lines, each line counted by itself.
abbrev pub sum_tokens : List Text → ℕ
sum_tokens [] = 0
sum_tokens (line ∷ lines) = estimate_tokens line + sum_tokens lines

reverse_aux-append {ℓ} :
    {A : Type ℓ} (xs ys zs : List A) → reverse_aux xs (ys ++ zs) ≡ reverse_aux xs ys ++ zs
reverse_aux-append [] ys zs = refl
reverse_aux-append (x ∷ xs) ys zs = reverse_aux-append xs (x ∷ ys) zs

loop_suffix :
    (limit : ℕ) (rest : List Text) (tokens : ℕ) (found : List Text)
    → (before : List Text) × (reverse_aux rest found
        ≡ before ++ overlap_loop limit rest tokens found)
unfolding overlap_loop
loop_suffix limit [] tokens found = ([], refl)
loop_suffix limit (line ∷ rest) tokens found =
    elim (Bool-cases (ltb limit (tokens + estimate_tokens line) && not (is_empty found))) [
      | inl stop ↦ (
        reverse_aux (line ∷ rest) [],
        rw (stop, overlap_loop) (reverse_aux-append (line ∷ rest) [] found),
      )
      | inr more ↦
          rw (more, overlap_loop)
            (loop_suffix limit rest (tokens + estimate_tokens line) (line ∷ found))
    ]

-- The overlap is a suffix of the chunk.
pub overlap_suffix :
    (lines : List Text) (limit : ℕ)
    → (before : List Text) × (lines ≡ before ++ get_overlap_lines lines limit)
unfolding get_overlap_lines
overlap_suffix lines limit =
    let (before, e) = loop_suffix limit (reverse lines) 0 [] in
    (before, sym (reverse-reverse lines) ∙ e)

loop_fits :
    (limit : ℕ) (rest : List Text) (tokens : ℕ) (found : List Text)
    → tokens ≡ sum_tokens found
    → (2 ≤ length found → tokens ≤ limit)
    → 2 ≤ length (overlap_loop limit rest tokens found)
    → sum_tokens (overlap_loop limit rest tokens found) ≤ limit
unfolding overlap_loop
loop_fits limit [] tokens found e h = λ two. omega (arith, h two)
loop_fits limit (line ∷ rest) tokens found e h =
    elim (Bool-cases (ltb limit (tokens + estimate_tokens line) && not (is_empty found))) [
      | inl stop ↦ rw (stop, overlap_loop) (λ two. omega (arith, h two))
      | inr more ↦
          rw (more, overlap_loop)
            (loop_fits limit rest (tokens + estimate_tokens line) (line ∷ found) (omega arith)
              (λ two. ground arith))
    ]

drop_suffix :
    (before found lines : List Text)
    → lines ≡ before ++ found
    → drop (length lines - length found) lines ≡ found
drop_suffix before found lines e =
    let n : length lines - length found ≡ length before =
      omega (arith, ap (length {A = Text}) e, length-append before found) in
    rw n (rw e (drop-append before found))

-- The overlap of a chunk is a suffix of its lines, and, if it has two lines or more, these have
-- no more tokens together than the overlap allows.
pub overlap_exact :
    (lines : List Text) (limit : ℕ)
    → let found = get_overlap_lines lines limit in
      (drop (length lines - length found) lines ≡ found)
      × ((length found ≤ 1) ⊎ (sum_tokens found ≤ limit))
unfolding get_overlap_lines
overlap_exact lines limit =
    let (before, e) = overlap_suffix lines limit in
    (
      drop_suffix before (get_overlap_lines lines limit) lines e,
      elim (Bool-cases (leb (length (get_overlap_lines lines limit)) 1)) [
        | inl one ↦ inl (leb→le _ _ one)
        | inr two ↦ inr (
            loop_fits limit (reverse lines) 0 [] refl (λ h. absurd (omega arith))
              (lt_of_not-leb _ _ two))
      ],
    )
