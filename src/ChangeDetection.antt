-- ===== src/ChangeDetection.antt =====
-- The detection of changes from file events (src/services/change-detection-service.ts).
pub mod Service
pub mod Timers
pub mod Invariant
pub mod Counts
pub mod Conserved
pub mod Reports
pub mod Overlapping
