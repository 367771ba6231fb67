-- ===== src/UpdateJobs/Trigger.antt =====
-- The handler of the tool `trigger_incremental_update`
-- (src/mcp/tools/trigger-incremental-update.ts). A call waits once, for the repository's metadata;
-- from there to the coordinator's promise it runs without a pause, so it is one step here. The
-- rest of a call, behind that promise, is a flight; a step for its outcome ends it.
use personal_knowledge_mcp.Base.{
  Bool, List, [], if◌then◌else◌, leb, none, some, true, ℕ, ℕ_discrete, ◌&&◌, ◌++◌, ◌+◌, ◌∷◌,
}
use personal_knowledge_mcp.JsMap.Defs.{delete, get, set}
use personal_knowledge_mcp.UpdateJobs.JobTracker.{
  JobTracker, complete, create_job, fail, get_running_job, running, time_out, update_status,
}
use personal_knowledge_mcp.UpdateJobs.RateLimiter.{
  RateLimiter, allowed, can_trigger, is_in_progress, mark_complete, mark_in_progress, rate_limited,
  update_running,
}
use personal_knowledge_mcp.UpdateJobs.Server.{
  Coordinator, CoordinatorResult, Effect, Flight, Lookup, Outcome, Response, Server, aborted, calls,
  caught, ceil_seconds, dispatch_coordinator, found, job_started, lookup_failed, not_found,
  rate_limited_for, rejected, repository_not_found, resolved, responds, service_unavailable,
  sync_response, update_in_progress, update_timeout_ms, watchdog_ms,
}

module _ {K I E : Type 0} where
  -- A call that ends with an answer and changes nothing.
  abbrev pub answer : Response I → Server K I E → Server K I E × List (Effect K I)
  answer response s =
      (record s { call_count = s.call_count + 1 }, responds s.call_count response ∷ [])

  -- The abort needs the timeout to have passed.
  abbrev pub is_due : ℕ → Flight K I → Outcome E → Bool
  is_due now f aborted = leb (f.started_at + update_timeout_ms) now
  is_due now f (resolved r) = true
  is_due now f (rejected e mentions) = true

module _ {K I E : Type 0} (dec : Discrete K) (dec_id : Discrete I) (timeout_message : E) where
  -- Steps 5 and 6: mark the repository, create the job of an asynchronous call, call the
  -- coordinator.
  unfoldable pub start_update :
      ℕ → K → Bool → I → Coordinator → Server K I E → Server K I E × List (Effect K I)
  start_update now r is_async i coordinator s =
      let s1 = record s {
        limiter = mark_in_progress dec r s.limiter;
        flights =
            set ℕ_discrete s.call_count
              (record { repository = r; job = if is_async then some i else none; started_at = now })
              s.flights;
        call_count = s.call_count + 1;
      } in
      if is_async
      then (
        record s1 {
          tracker = update_status dec dec_id i running (create_job dec dec_id now i r s.tracker);
        },
        calls coordinator r ∷ responds s.call_count (job_started i) ∷ [],
      )
      else (s1, calls coordinator r ∷ [])

  -- Steps 3 to 6: the deduplication, the rate limit, the update.
  unfoldable pub admit :
      ℕ → K → Bool → I → Coordinator → Server K I E → Server K I E × List (Effect K I)
  unfolding start_update
  admit now r is_async i coordinator s = elim (get_running_job dec dec_id r s.tracker) [
    | some job ↦ answer (job_started job.id) s
    | none ↦ elim (can_trigger dec now r s.limiter) [
      | update_running ↦ answer update_in_progress s
      | rate_limited ms ↦ answer (rate_limited_for (ceil_seconds ms)) s
      | allowed ↦ start_update now r is_async i coordinator s
    ]
  ]

  -- The handler once the metadata is there. `i` is the id that a new job would get.
  unfoldable pub trigger :
      ℕ → K → Bool → I → Lookup → Server K I E → Server K I E × List (Effect K I)
  unfolding admit dispatch_coordinator
  trigger now r is_async i not_found s = answer repository_not_found s
  trigger now r is_async i (lookup_failed mentions) s = answer (caught mentions) s
  trigger now r is_async i (found source) s =
      elim (dispatch_coordinator source s.has_folder_coordinator) [
        | none ↦ answer service_unavailable s
        | some coordinator ↦ admit now r is_async i coordinator s
      ]

  -- What the outcome of an asynchronous update makes of its job.
  unfoldable pub close_job :
      ℕ → I → Outcome E → JobTracker K I CoordinatorResult E → JobTracker K I CoordinatorResult E
  close_job now i (resolved r) t = complete dec dec_id now i r t
  close_job now i (rejected e mentions) t =
      if mentions then time_out dec dec_id now i timeout_message t else fail dec dec_id now i e t
  close_job now i aborted t = time_out dec dec_id now i timeout_message t

  -- The race of a flight is decided.
  unfoldable pub land :
      ℕ → ℕ → Flight K I → Outcome E → Server K I E → Server K I E × List (Effect K I)
  unfolding close_job sync_response
  land now n f outcome s =
      let s1 = record s {
        limiter = mark_complete dec now f.repository s.limiter;
        flights = delete ℕ_discrete n s.flights;
      } in
      elim f.job [
        | some i ↦ (record s1 { tracker = close_job now i outcome s.tracker }, [])
        | none ↦ (s1, responds n (sync_response outcome) ∷ [])
      ]

  unfoldable pub settle : ℕ → ℕ → Outcome E → Server K I E → Server K I E × List (Effect K I)
  unfolding land
  settle now n outcome s = elim (get ℕ_discrete n s.flights) [
    | none ↦ (s, [])
    | some f ↦ if is_due now f outcome then land now n f outcome s else (s, [])
  ]

  -- The failsafe timer of an asynchronous call, which the end of its flight would have cleared.
  unfoldable pub watchdog : ℕ → ℕ → Server K I E → Server K I E × List (Effect K I)
  watchdog now n s = elim (get ℕ_discrete n s.flights) [
    | none ↦ (s, [])
    | some f ↦ elim f.job [
      | none ↦ (s, [])
      | some i ↦
          if leb (f.started_at + watchdog_ms) now && is_in_progress dec f.repository s.limiter
          then (
            record s {
              tracker = time_out dec dec_id now i timeout_message s.tracker;
              limiter = mark_complete dec now f.repository s.limiter;
            },
            [],
          )
          else (s, [])
    ]
  ]

pub data Event (K I E : Type 0) : Type 0 where
  triggered : K → Bool → I → Lookup → Event K I E
  settled : ℕ → Outcome E → Event K I E
  watchdog_fired : ℕ → Event K I E

module _ {K I E : Type 0} (dec : Discrete K) (dec_id : Discrete I) (timeout_message : E) where
  unfoldable pub step : ℕ → Event K I E → Server K I E → Server K I E × List (Effect K I)
  step now (triggered r is_async i lookup) s =
      trigger dec dec_id timeout_message now r is_async i lookup s
  step now (settled n outcome) s = settle dec dec_id timeout_message now n outcome s
  step now (watchdog_fired n) s = watchdog dec dec_id timeout_message now n s

  unfoldable pub run : List (ℕ × Event K I E) → Server K I E → Server K I E × List (Effect K I)
  run [] s = (s, [])
  run ((now, e) ∷ es) s =
      let (s1, out) = step now e s in let (s2, outs) = run es s1 in (s2, out ++ outs)

  abbrev pub new_server : RateLimiter K → JobTracker K I CoordinatorResult E → Bool → Server K I E
  new_server l t configured = record {
    limiter = l;
    tracker = t;
    flights = [];
    call_count = 0;
    has_folder_coordinator = configured;
  }
