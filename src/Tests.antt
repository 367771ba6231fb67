-- ===== src/Tests.antt =====
-- Runs of the models on small inputs, and the theorems applied to them.
mod Queue
mod Cache
mod Updates
mod Exports
mod Folders
mod Access
mod Schema
mod Changes
mod Identity
mod Batching
mod Chunking
mod Retries
