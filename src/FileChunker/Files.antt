-- ===== src/FileChunker/Files.antt =====
-- The chunks that `chunkFile` makes of a file (src/ingestion/file-chunker.ts).
use personal_knowledge_mcp.Base.{
  Bool-cases, List, Text, [], ap, ap₂, arith, drop, false, inl, inr, length, length-take, refl,
  some, suc, sym, take, true, zero, ℕ, ◌+◌, ◌-◌, ◌==◌, ◌∙◌, ◌∷◌, ◌≡◌, ◌≤◌,
}
use personal_knowledge_mcp.FileChunker.Chunker.{
  ChunkBoundary, ChunkerConfig, FileChunk, add_to_first, build_chunks, chunk_file, is_blank,
  join_lines, max_chunks_per_file, normalize, split_into_chunk_boundaries, split_lines,
}
use personal_knowledge_mcp.FileChunker.Slices.{AllSlices, split_exact}

join-add_to_first :
    (x : ℕ) (line : Text) (lines : List Text)
    → join_lines (add_to_first x (line ∷ lines)) ≡ x ∷ join_lines (line ∷ lines)
unfolding join_lines
join-add_to_first x line [] = refl
join-add_to_first x line (m ∷ lines) = refl

is_ten : (x : ℕ) → (x == 10) ≡ true → x ≡ 10
is_ten x h = ground arith

-- The lines of a text are not none.
first_line : (text : Text) → (line : Text) × (lines : List Text) × (split_lines text ≡ line ∷ lines)
unfolding split_lines
first_line [] = ([], [], refl)
first_line (x ∷ text) =
    let (line, lines, e) = first_line text in
    elim (Bool-cases (x == 10)) [
      | inl newline ↦ rw newline ([], split_lines text, refl)
      | inr other ↦ rw (other, e) (x ∷ line, lines, refl)
    ]

join-split_lines : (text : Text) → join_lines (split_lines text) ≡ text
unfolding split_lines join_lines
join-split_lines [] = refl
join-split_lines (x ∷ text) =
    let (line, lines, e) = first_line text in
    let rest = ap join_lines (sym e) ∙ join-split_lines text in
    elim (Bool-cases (x == 10)) [
      | inl newline ↦ rw (newline, e) (ap₂ (λ a b. a ∷ b) (sym (is_ten x newline)) rest)
      | inr other ↦ rw (other, e) (join-add_to_first x line lines ∙ ap (λ b. x ∷ b) rest)
    ]

-- The chunks from an index on: each joins the lines from its first to its last, and carries its
-- index, the number of all chunks, the file's path and the repository.
module _ (lines : List Text) (repository path : Text) (total : ℕ) where
  abbrev pub DescribeFile : ℕ → List FileChunk → Type 0
  DescribeFile index [] = Unit
  DescribeFile index (f ∷ fs) =
      (f.content ≡ join_lines (drop (f.start_line - 1) (take f.end_line lines)))
      × (f.chunk_index ≡ index)
      × (f.total_chunks ≡ total)
      × (f.repository ≡ repository)
      × (f.file_path ≡ path)
      × DescribeFile (index + 1) fs

  build-DescribeFile :
      (index : ℕ) (bs : List ChunkBoundary)
      → AllSlices lines bs
      → DescribeFile index (build_chunks repository path total index bs)
  unfolding build_chunks
  build-DescribeFile index [] h = tt
  build-DescribeFile index (b ∷ bs) (start, some_lines, slice, h) =
      (ap join_lines (sym slice), refl, refl, refl, refl, build-DescribeFile (index + 1) bs h)

  length-build_chunks :
      (index : ℕ) (bs : List ChunkBoundary)
      → length (build_chunks repository path total index bs) ≡ length bs
  unfolding build_chunks
  length-build_chunks index [] = refl
  length-build_chunks index (b ∷ bs) = ap suc (length-build_chunks (index + 1) bs)

take-AllSlices :
    (lines : List Text) (n : ℕ) (bs : List ChunkBoundary)
    → AllSlices lines bs
    → AllSlices lines (take n bs)
take-AllSlices lines zero bs h = tt
take-AllSlices lines (suc n) [] h = tt
take-AllSlices lines (suc n) (b ∷ bs) (start, some_lines, slice, h) =
    (start, some_lines, slice, take-AllSlices lines n bs h)

-- The boundaries that `chunkFile` keeps.
abbrev kept : ChunkerConfig → Text → List ChunkBoundary
kept config content = take max_chunks_per_file (
    split_into_chunk_boundaries (split_lines (normalize content)) config.max_chunk_tokens
      config.overlap_tokens)

chunk_file-kept :
    (config : ChunkerConfig) (content path repository : Text) {chunks : List FileChunk}
    → chunk_file config content path repository ≡ some chunks
    → is_blank content ≡ false
    → chunks ≡ build_chunks repository path (length (kept config content)) 0 (kept config content)
unfolding chunk_file
chunk_file-kept config content path repository {chunks} h blank = ground arith

-- The chunks that `chunkFile` makes of content that is not blank, under a name that it accepts,
-- are at most 100; the content with its line ends normalised is the joined lines; and the chunks,
-- in order, carry their index from 0, the number of all of them, the path and the repository, and
-- hold the joined lines from their `startLine` to their `endLine`.
pub chunk_file_exact :
    (config : ChunkerConfig) (content path repository : Text) {chunks : List FileChunk}
    → chunk_file config content path repository ≡ some chunks
    → is_blank content ≡ false
    → (length chunks ≤ max_chunks_per_file)
      × (join_lines (split_lines (normalize content)) ≡ normalize content)
      × DescribeFile (split_lines (normalize content)) repository path (length chunks) 0 chunks
unfolding chunk_file
chunk_file_exact config content path repository {chunks} h blank =
    let lines = split_lines (normalize content) in
    let bs = kept config content in
    let made = chunk_file-kept config content path repository h blank in
    let all = length-build_chunks lines repository path (length bs) 0 bs in
    let (slices, covers) = split_exact lines config.max_chunk_tokens config.overlap_tokens in
    (
      rw (made, all)
          (omega (
            arith,
            length-take max_chunks_per_file
                (split_into_chunk_boundaries lines config.max_chunk_tokens config.overlap_tokens),
          )),
      join-split_lines (normalize content),
      rw (made, all)
          (build-DescribeFile lines repository path (length bs) 0 bs
            (take-AllSlices lines max_chunks_per_file _ slices)),
    )
