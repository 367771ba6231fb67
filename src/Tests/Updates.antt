-- ===== src/Tests/Updates.antt =====
-- Update jobs on small runs (src/mcp/rate-limiter.ts, src/mcp/job-tracker.ts,
-- src/mcp/tools/trigger-incremental-update.ts). Repositories, job ids and messages are numbers.
use personal_knowledge_mcp.Base.{
  List, Option, [], arith, false, none, refl, some, true, ℕ, ℕ_discrete, ◌<◌, ◌∷◌, ◌≡◌,
}
use personal_knowledge_mcp.JsMap.Defs.{delete, get, has, set}
use personal_knowledge_mcp.JsMap.Laws.{IsMap}
use personal_knowledge_mcp.UpdateJobs.Exclusion.{IsExclusive, NoWatchdog, run-IsExclusive}
use personal_knowledge_mcp.UpdateJobs.Flights.{count_flights}
use personal_knowledge_mcp.UpdateJobs.JobTracker.{
  JobTracker, UpdateJob, aged_jobs, change_job, cleanup, complete, completed, completed_jobs,
  create_job, delete_jobs, fail, get_job, get_running_job, ids, insert_by_time, new_tracker,
  running, running_in, sort_by_time, time_out, update_status,
}
use personal_knowledge_mcp.UpdateJobs.Outcomes.{IsReleased, settle_closes_job, settle_releases}
use personal_knowledge_mcp.UpdateJobs.RateLimiter.{
  RateLimiter, allowed, can_trigger, check_entry, clear_limits, is_in_progress, mark_complete,
  mark_in_progress, new_limiter,
}
use personal_knowledge_mcp.UpdateJobs.RateLimits.{
  can_trigger-check_phase, check_phase, fresh, limiter-refines, phase, retry_after_exact,
}
use personal_knowledge_mcp.UpdateJobs.Retention.{cleanup_keeps_unfinished}
use personal_knowledge_mcp.UpdateJobs.Server.{
  CoordinatorResult, Flight, Server, calls, dispatch_coordinator, found, git_coordinator,
  git_remote, internal_error, job_started, local_folder, local_git, rate_limited_for, rejected,
  resolved, responds, service_unavailable, sync_response, updated,
}
use personal_knowledge_mcp.UpdateJobs.Trigger.{
  Event, admit, close_job, land, new_server, run, settle, settled, start_update, step, trigger,
  triggered, watchdog,
}

program : Unit {0}
unfolding run step trigger admit start_update settle land watchdog new_limiter new_tracker
    create_job update_status change_job get_running_job running_in get_job can_trigger check_entry
    mark_in_progress mark_complete is_in_progress close_job complete time_out fail
    dispatch_coordinator sync_response get set delete has ℕ_discrete phase cleanup delete_jobs
    aged_jobs completed_jobs sort_by_time insert_by_time ids count_flights
program = tt

abbrev repo : ℕ
repo = 1

abbrev limiter : RateLimiter ℕ
limiter = new_limiter none

abbrev tracker : JobTracker ℕ ℕ CoordinatorResult ℕ
tracker = new_tracker (some 1000) (some 1)

abbrev server : Server ℕ ℕ ℕ
server = new_server ℕ_discrete ℕ_discrete 99 limiter tracker false

abbrev fine : CoordinatorResult
fine = record { status = updated; error_count = 0 }

-- The server after an asynchronous call.
abbrev updating : Server ℕ ℕ ℕ
updating = (trigger ℕ_discrete ℕ_discrete 99 5000 repo true 7 (found git_remote) server).0

abbrev flight : Flight ℕ ℕ
flight = record { repository = repo; job = some 7; started_at = 5000 }

abbrev day : List (ℕ × Event ℕ ℕ ℕ)
day =
    (5000, triggered repo true 7 (found git_remote))
    ∷ (5100, triggered repo true 8 (found git_remote))
    ∷ (5200, triggered 2 false 9 (found local_folder))
    ∷ (6000, settled 0 (resolved fine))
    ∷ (6500, triggered repo false 9 (found local_git))
    ∷ (9000, triggered repo false 9 (found local_git))
    ∷ (9500, settled 4 (rejected 3 false))
    ∷ []

day_outputs :
    (run ℕ_discrete ℕ_discrete 99 day server).1
    ≡ calls git_coordinator 1
      ∷ responds 0 (job_started 7)
      ∷ responds 1 (job_started 7)
      ∷ responds 2 service_unavailable
      ∷ responds 3 (rate_limited_for 2)
      ∷ calls git_coordinator 1
      ∷ responds 4 internal_error
      ∷ []
unfolding program
day_outputs = refl

server-IsExclusive : IsExclusive ℕ_discrete ℕ_discrete 99 server
unfolding program
server-IsExclusive = record { numbered = tt; distinct = tt; exclusive = λ r. refl }

day-NoWatchdog : NoWatchdog ℕ_discrete ℕ_discrete 99 day
day-NoWatchdog = ground arith

run-IsExclusive_example :
    IsExclusive ℕ_discrete ℕ_discrete 99 (run ℕ_discrete ℕ_discrete 99 day server).0
run-IsExclusive_example =
    run-IsExclusive ℕ_discrete ℕ_discrete 99 day server server-IsExclusive day-NoWatchdog

settle_releases_example :
    IsReleased ℕ_discrete ℕ_discrete 99 6000 6500 0 flight updating
      (settle ℕ_discrete ℕ_discrete 99 6000 0 (resolved fine) updating).0
unfolding program
settle_releases_example =
    settle_releases ℕ_discrete ℕ_discrete 99 6000 6500 0 flight (resolved fine) updating refl refl

settle_closes_job_example :
    get ℕ_discrete 7
      (settle ℕ_discrete ℕ_discrete 99 6000 0 (resolved fine) updating).0.tracker.jobs
    ≡ some (record {
      id = 7;
      repository = repo;
      status = completed;
      started_at = 5000;
      completed_at = some 6000;
      result = some fine;
      error = none;
    })
unfolding program
settle_closes_job_example =
    settle_closes_job ℕ_discrete ℕ_discrete 99 6000 0 flight 7 (resolved fine) updating refl refl
      refl refl

limiter-refines_example :
    (phase ℕ_discrete 2 (mark_in_progress ℕ_discrete repo limiter) ≡ fresh)
    × (phase ℕ_discrete 2 (mark_complete ℕ_discrete 9 repo limiter) ≡ fresh)
    × (phase ℕ_discrete 2 (clear_limits ℕ_discrete limiter) ≡ fresh)
    × (is_in_progress ℕ_discrete 2 limiter ≡ false)
unfolding program
limiter-refines_example = limiter-refines ℕ_discrete 9 repo 2 limiter

-- A limiter half a second after an update.
abbrev cooling_limiter : RateLimiter ℕ
cooling_limiter = mark_complete ℕ_discrete 6000 repo limiter

can_trigger-check_phase_example :
    can_trigger ℕ_discrete 6500 repo cooling_limiter
    ≡ check_phase 2000 6500 (phase ℕ_discrete repo cooling_limiter)
unfolding program
can_trigger-check_phase_example = can_trigger-check_phase ℕ_discrete 6500 repo cooling_limiter

retry_after_exact_example :
    (0 < 1500) × (can_trigger ℕ_discrete 8000 repo cooling_limiter ≡ allowed)
unfolding program
retry_after_exact_example =
    retry_after_exact ℕ_discrete 6500 8000 1500 repo cooling_limiter refl (omega arith)

abbrev job_of : ℕ → Option ℕ → UpdateJob ℕ ℕ CoordinatorResult ℕ
job_of i at = record {
  id = i;
  repository = repo;
  status = running;
  started_at = 0;
  completed_at = at;
  result = none;
  error = none;
}

-- One job too old, two completed, one running; room for one completed job.
abbrev crowded : JobTracker ℕ ℕ CoordinatorResult ℕ
crowded = record tracker {
  jobs =
      (1, job_of 1 (some 100))
      ∷ (2, job_of 2 (some 1900))
      ∷ (3, job_of 3 none)
      ∷ (4, job_of 4 (some 1800))
      ∷ [];
}

crowded-IsMap : IsMap ℕ_discrete crowded.jobs
unfolding program
crowded-IsMap = ground arith

cleanup_keeps_unfinished_example :
    get ℕ_discrete 3 (cleanup ℕ_discrete ℕ_discrete 2000 crowded).jobs ≡ some (job_of 3 none)
unfolding program
cleanup_keeps_unfinished_example =
    cleanup_keeps_unfinished ℕ_discrete ℕ_discrete 2000 3 crowded crowded-IsMap refl refl

abbrev roomy : JobTracker ℕ ℕ CoordinatorResult ℕ
roomy = record crowded { max_jobs = 10 }
