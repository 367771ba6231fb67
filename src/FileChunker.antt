-- ===== src/FileChunker.antt =====
-- The file chunker (src/ingestion/file-chunker.ts, src/ingestion/chunk-utils.ts): a file's lines
-- are split into chunks that overlap.
pub mod Chunker
pub mod Overlap
pub mod Slices
pub mod Files
