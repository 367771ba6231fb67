-- ===== src/ProcessingQueue.antt =====
-- The processing queue of the folder watcher (src/services/processing-queue.ts): batching,
-- debounce and max-wait timers, retries, and shutdown.
pub mod Config
pub mod State
pub mod Machine
pub mod Events
pub mod Invariant
pub mod Fifo
pub mod Stall
pub mod Drain
pub mod Attempts
pub mod Wake
