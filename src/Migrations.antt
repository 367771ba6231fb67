-- ===== src/Migrations.antt =====
-- Schema migrations of the graph database (src/graph/migration/MigrationRunner.ts).
pub mod Registry
pub mod Format
pub mod Ordered
pub mod Runner
pub mod Migrate
pub mod Registered
pub mod Selection
pub mod Runs
pub mod Pending
pub mod Compared
pub mod Reports
pub mod Outcomes
pub mod Again
