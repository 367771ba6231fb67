-- ===== src/FileChunker/Chunker.antt =====
-- `FileChunker` (src/ingestion/file-chunker.ts) and `estimateTokens`
-- (src/ingestion/chunk-utils.ts). A text is the list of its Unicode code points.
use personal_knowledge_mcp.Base.{
  Bool, List, Option, Text, [], false, if◌then◌else◌, is_white, leb, length, ltb, none, not,
  or_default, reverse, some, take, true, ℕ, ◌&&◌, ◌++◌, ◌+◌, ◌-◌, ◌/◌, ◌==◌, ◌||◌, ◌∷◌,
}

-- Four code points count as a token, rounded up.
unfoldable pub estimate_tokens : Text → ℕ
estimate_tokens text = (length text + 3) / 4

-- `lines.join("\n")`
unfoldable pub join_lines : List Text → Text
join_lines [] = []
join_lines (l ∷ []) = l
join_lines (l ∷ m ∷ ls) = l ++ (10 ∷ join_lines (m ∷ ls))

-- `content.replace(/\r\n?/g, "\n")`
unfoldable pub normalize : Text → Text
normalize [] = []
normalize (x ∷ []) = (if x == 13 then 10 else x) ∷ []
normalize (x ∷ y ∷ text) = elim (x == 13 && y == 10) [
  | true ↦ 10 ∷ normalize text
  | false ↦ (if x == 13 then 10 else x) ∷ normalize (y ∷ text)
]

-- `content.split("\n")`
abbrev pub add_to_first : ℕ → List Text → List Text
add_to_first x [] = (x ∷ []) ∷ []
add_to_first x (line ∷ lines) = (x ∷ line) ∷ lines

unfoldable pub split_lines : Text → List Text
split_lines [] = [] ∷ []
split_lines (x ∷ text) =
    let rest = split_lines text in if x == 10 then [] ∷ rest else add_to_first x rest

-- `!content || content.trim().length === 0`
unfoldable pub is_blank : Text → Bool
unfolding is_white
is_blank [] = true
is_blank (x ∷ text) = is_white x && is_blank text

abbrev pub is_empty {ℓ} : {A : Type ℓ} → List A → Bool
is_empty [] = true
is_empty (_ ∷ _) = false

-- The loop of `getOverlapLines`, over the lines from the last to the first.
unfoldable pub overlap_loop : ℕ → List Text → ℕ → List Text → List Text
unfolding estimate_tokens
overlap_loop limit [] tokens overlap = overlap
overlap_loop limit (line ∷ lines) tokens overlap =
    elim (ltb limit (tokens + estimate_tokens line) && not (is_empty overlap)) [
      | true ↦ overlap
      | false ↦ overlap_loop limit lines (tokens + estimate_tokens line) (line ∷ overlap)
    ]

unfoldable pub get_overlap_lines : List Text → ℕ → List Text
unfolding overlap_loop
get_overlap_lines lines limit = overlap_loop limit (reverse lines) 0 []

pub record ChunkBoundary : Type 0 where
  pub lines : List Text
  pub start_line : ℕ
  pub end_line : ℕ

-- The loop of `splitIntoChunkBoundaries`: `i` lines are done; the lines, the tokens and the first
-- line of the chunk that is being built; the lines to come.
unfoldable pub split_loop : ℕ → ℕ → ℕ → List Text → ℕ → ℕ → List Text → List ChunkBoundary
unfolding estimate_tokens get_overlap_lines join_lines
split_loop limit overlap i current tokens start [] =
    if is_empty current
    then []
    else record { lines = current; start_line = start; end_line = i } ∷ []
split_loop limit overlap i current tokens start (line ∷ rest) =
    elim (ltb limit (tokens + estimate_tokens line) && not (is_empty current)) [
      | true ↦
          let shared = get_overlap_lines current overlap in
          record { lines = current; start_line = start; end_line = i }
          ∷ split_loop limit overlap (i + 1) (shared ++ (line ∷ []))
              (estimate_tokens (join_lines (shared ++ (line ∷ [])))) (i + 1 - length shared) rest
      | false ↦
          split_loop limit overlap (i + 1) (current ++ (line ∷ [])) (tokens + estimate_tokens line)
            start rest
    ]

unfoldable pub split_into_chunk_boundaries : List Text → ℕ → ℕ → List ChunkBoundary
unfolding split_loop
split_into_chunk_boundaries lines limit overlap = split_loop limit overlap 0 [] 0 1 lines

pub record ChunkerConfig : Type 0 where
  pub max_chunk_tokens : ℕ
  pub overlap_tokens : ℕ

-- `envValue > 0`
abbrev pub positive : Option ℕ → Option ℕ
positive none = none
positive (some n) = if ltb 0 n then some n else none

-- The constructor, on the given values and the parsed environment variables (`none`: not set or no
-- number); `none` is the `ValidationError`.
unfoldable pub configure : Option ℕ → Option ℕ → Option ℕ → Option ℕ → Option ChunkerConfig
configure given_max given_overlap env_max env_overlap =
    let max_tokens = or_default (positive env_max) (or_default given_max 500) in
    let overlap = or_default env_overlap (or_default given_overlap 50) in
    if leb max_tokens overlap
    then none
    else some (record { max_chunk_tokens = max_tokens; overlap_tokens = overlap })

pub record FileChunk : Type 0 where
  pub repository : Text
  pub file_path : Text
  pub content : Text
  pub chunk_index : ℕ
  pub total_chunks : ℕ
  pub start_line : ℕ
  pub end_line : ℕ

abbrev pub max_chunks_per_file : ℕ
max_chunks_per_file = 100

-- `boundaries.map(...)`, from an index on.
unfoldable pub build_chunks : Text → Text → ℕ → ℕ → List ChunkBoundary → List FileChunk
unfolding join_lines
build_chunks repository path total index [] = []
build_chunks repository path total index (b ∷ bs) =
    record {
      repository = repository;
      file_path = path;
      content = join_lines b.lines;
      chunk_index = index;
      total_chunks = total;
      start_line = b.start_line;
      end_line = b.end_line;
    }
    ∷ build_chunks repository path total (index + 1) bs

unfoldable pub has_colon : Text → Bool
has_colon [] = false
has_colon (x ∷ name) = x == b':' || has_colon name

-- `!repository || repository.includes(":")`
unfoldable pub is_bad_name : Text → Bool
unfolding has_colon
is_bad_name [] = true
is_bad_name (x ∷ name) = x == b':' || has_colon name

-- `chunkFile`; `none` is the `ValidationError` for the repository's name.
unfoldable pub chunk_file : ChunkerConfig → Text → Text → Text → Option (List FileChunk)
unfolding is_bad_name is_blank normalize split_lines split_into_chunk_boundaries build_chunks
chunk_file config content path repository =
    if is_bad_name repository
    then none
    else if is_blank content
    then some []
    else let boundaries = take max_chunks_per_file (
        split_into_chunk_boundaries (split_lines (normalize content)) config.max_chunk_tokens
          config.overlap_tokens) in
      some (build_chunks repository path (length boundaries) 0 boundaries)
