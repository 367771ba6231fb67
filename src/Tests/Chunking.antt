-- ===== src/Tests/Chunking.antt =====
-- The file chunker on small texts (src/ingestion/file-chunker.ts).
use personal_knowledge_mcp.Base.{
  List, Text, [], is_white, length, map, or_default, refl, ◌++◌, ◌∷◌, ◌≡◌, ◌≤◌,
}
use personal_knowledge_mcp.FileChunker.Chunker.{
  ChunkerConfig, FileChunk, build_chunks, chunk_file, estimate_tokens, get_overlap_lines, has_colon,
  is_bad_name, is_blank, join_lines, normalize, overlap_loop, split_into_chunk_boundaries,
  split_lines, split_loop,
}
use personal_knowledge_mcp.FileChunker.Files.{DescribeFile, chunk_file_exact}
use personal_knowledge_mcp.FileChunker.Slices.{AllSlices, Covers, split_exact}

program : Unit {0}
unfolding split_into_chunk_boundaries split_loop get_overlap_lines overlap_loop estimate_tokens
    join_lines normalize split_lines chunk_file is_bad_name has_colon is_blank is_white build_chunks
program = tt

-- Lines of 8, 4, 4 and 8 code points: 2, 1, 1 and 2 tokens.
abbrev four : Text
four = 97 ∷ 97 ∷ 97 ∷ 97 ∷ []

abbrev eight : Text
eight = four ++ four

abbrev poem : List Text
poem = eight ∷ four ∷ four ∷ eight ∷ []

poem_chunks :
    split_into_chunk_boundaries poem 3 1
    ≡ record { lines = eight ∷ four ∷ []; start_line = 1; end_line = 2 }
      ∷ record { lines = four ∷ four ∷ []; start_line = 2; end_line = 3 }
      ∷ record { lines = four ∷ eight ∷ []; start_line = 3; end_line = 4 }
      ∷ []
unfolding program
poem_chunks = refl

split_exact_example :
    AllSlices poem (split_into_chunk_boundaries poem 3 1)
    × Covers 0 4 (split_into_chunk_boundaries poem 3 1)
split_exact_example = split_exact poem 3 1

-- Three lines of text with different ends, and the configuration above.
abbrev note : Text
note = eight ++ (13 ∷ 10 ∷ four) ++ (10 ∷ eight)

abbrev tiny : ChunkerConfig
tiny = record { max_chunk_tokens = 3; overlap_tokens = 1 }

abbrev note_chunks : List FileChunk
note_chunks = or_default (chunk_file tiny note (110 ∷ []) (114 ∷ [])) []

note_chunks_content :
    map (λ f. f.content) note_chunks ≡ (eight ++ (10 ∷ four)) ∷ (four ++ (10 ∷ eight)) ∷ []
unfolding program
note_chunks_content = refl

chunk_file_exact_example :
    (length note_chunks ≤ 100)
    × (join_lines (split_lines (normalize note)) ≡ normalize note)
    × DescribeFile
        (split_lines (normalize note))
        (114 ∷ [])
        (110 ∷ [])
        (length note_chunks)
        0
        note_chunks
unfolding program
chunk_file_exact_example = chunk_file_exact tiny note (110 ∷ []) (114 ∷ []) refl refl
