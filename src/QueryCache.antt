-- ===== src/QueryCache.antt =====
-- The query cache of the graph service (src/services/graph-service-cache.ts): entries that expire,
-- a bound on their number, and an index of the keys by their prefix.
pub mod Keys
pub mod Cache
pub mod Index
pub mod Entries
pub mod Bounds
pub mod Reads
pub mod Prefix
