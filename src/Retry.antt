-- ===== src/Retry.antt =====
-- Retries with exponential backoff (src/utils/retry.ts).
pub mod Backoff
pub mod Loop
pub mod Attempts
