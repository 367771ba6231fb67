-- ===== src/UpdateJobs/Server.antt =====
-- The data of the handler of `trigger_incremental_update`, its answers, and the choice of a
-- coordinator (src/mcp/tools/trigger-incremental-update.ts,
-- src/services/update-coordinator-dispatch.ts).
use personal_knowledge_mcp.Base.{
  Bool, List, Option, false, if◌then◌else◌, none, some, true, ℕ, ◌+◌, ◌/◌,
}
use personal_knowledge_mcp.UpdateJobs.JobTracker.{JobTracker}
use personal_knowledge_mcp.UpdateJobs.RateLimiter.{RateLimiter}

pub data Source : Type 0 where
  git_remote local_git local_folder : Source

pub data Coordinator : Type 0 where
  git_coordinator folder_coordinator : Coordinator

-- What `repositoryService.getRepository` gives: nothing, the repository's source, or an error,
-- with whether its message includes "timed out".
pub data Lookup : Type 0 where
  not_found : Lookup
  found : Source → Lookup
  lookup_failed : Bool → Lookup

pub data CoordinatorStatus : Type 0 where
  updated no_changes incomplete drift_detected update_failed : CoordinatorStatus

-- The result of a coordinator, as far as the handler reads it.
pub record CoordinatorResult : Type 0 where
  pub status : CoordinatorStatus
  pub error_count : ℕ

-- How the race of `executeWithTimeout` ends: with the coordinator's result, with its error (the
-- message, and whether it includes "timed out"), or with the abort of the timer.
pub data Outcome (E : Type 0) : Type 0 where
  resolved : CoordinatorResult → Outcome E
  rejected : E → Bool → Outcome E
  aborted : Outcome E

pub data Response (I : Type 0) : Type 0 where
  repository_not_found : Response I
  service_unavailable : Response I
  update_in_progress : Response I
  rate_limited_for : ℕ → Response I
  job_started : I → Response I
  succeeded : CoordinatorResult → Response I
  failed_with : ℕ → Response I
  timeout_error : Response I
  internal_error : Response I

-- What a step does towards the outside: it answers a call, or it calls a coordinator.
pub data Effect (K I : Type 0) : Type 0 where
  responds : ℕ → Response I → Effect K I
  calls : Coordinator → K → Effect K I

pub record Flight (K I : Type 0) : Type 0 where
  pub repository : K
  pub job : Option I
  pub started_at : ℕ

pub record Server (K I E : Type 0) : Type 0 where
  pub limiter : RateLimiter K
  pub tracker : JobTracker K I CoordinatorResult E
  pub flights : List (ℕ × Flight K I)
  pub call_count : ℕ
  pub has_folder_coordinator : Bool

abbrev pub update_timeout_ms : ℕ
update_timeout_ms = 600000

abbrev pub watchdog_ms : ℕ
watchdog_ms = update_timeout_ms + 60000

-- `dispatchCoordinator` (src/services/update-coordinator-dispatch.ts): folders need a coordinator of their own.
unfoldable pub dispatch_coordinator : Source → Bool → Option Coordinator
dispatch_coordinator local_folder configured = if configured then some folder_coordinator else none
dispatch_coordinator git_remote configured = some git_coordinator
dispatch_coordinator local_git configured = some git_coordinator

-- `Math.ceil(ms / 1000)`
abbrev pub ceil_seconds : ℕ → ℕ
ceil_seconds ms = (ms + 999) / 1000

abbrev pub is_failed : CoordinatorStatus → Bool
is_failed update_failed = true
is_failed _ = false

-- The `catch` of the handler.
abbrev pub caught : {I : Type 0} → Bool → Response I
caught mentions = if mentions then timeout_error else internal_error

-- The answer to a synchronous call whose update has ended.
unfoldable pub sync_response : {I E : Type 0} → Outcome E → Response I
sync_response (resolved r) = if is_failed r.status then failed_with r.error_count else succeeded r
sync_response (rejected e mentions) = caught mentions
sync_response aborted = caught true
