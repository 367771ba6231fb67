-- ===== src/UpdateJobs.antt =====
-- Update jobs of the MCP server: the rate limiter (src/mcp/rate-limiter.ts), the job tracker
-- (src/mcp/job-tracker.ts) and the handler that triggers updates
-- (src/mcp/tools/trigger-incremental-update.ts).
pub mod RateLimiter
pub mod RateLimits
pub mod JobTracker
pub mod Cleanup
pub mod Retention
pub mod Size
pub mod Server
pub mod Trigger
pub mod Flights
pub mod Exclusion
pub mod Outcomes
