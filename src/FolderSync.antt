-- ===== src/FolderSync.antt =====
-- Local folders: which files count (src/ingestion/file-eligibility.ts), and what has changed since
-- the last manifest (src/services/local-folder-change-detector.ts).
pub mod Eligibility
pub mod Walk
pub mod Rules
pub mod Walked
pub mod Detector
pub mod Diff
pub mod Settled
pub mod Folder
