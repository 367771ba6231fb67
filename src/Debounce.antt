-- ===== src/Debounce.antt =====
-- The debounced batcher (src/utils/debounce.ts).
pub mod Config
pub mod Batcher
pub mod Batches
pub mod Stranded
