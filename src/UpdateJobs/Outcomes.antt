-- ===== src/UpdateJobs/Outcomes.antt =====
-- What a call of the trigger starts, and what the end of an update leaves
-- (src/mcp/tools/trigger-incremental-update.ts).
use personal_knowledge_mcp.Base.{
  Bool, List, Option-cases, [], arith, false, if_pos, if◌then◌else◌, inl, inr, leb, none, refl,
  some, true, ℕ, ℕ_discrete, ◌+◌, ◌-◌, ◌∙◌, ◌∷◌, ◌≡◌,
}
use personal_knowledge_mcp.JsMap.Defs.{get}
use personal_knowledge_mcp.JsMap.Laws.{get-delete_self, get-set_self}
use personal_knowledge_mcp.UpdateJobs.JobTracker.{
  JobTracker, UpdateJob, change_job, complete, completed, fail, failed, get_running_job, time_out,
  timed_out,
}
use personal_knowledge_mcp.UpdateJobs.RateLimiter.{
  RateLimiter, allowed, can_trigger, is_in_progress, rate_limited, update_running,
}
use personal_knowledge_mcp.UpdateJobs.RateLimits.{
  can_trigger-mark_complete, progress-mark_complete, progress-mark_in_progress,
}
use personal_knowledge_mcp.UpdateJobs.Server.{
  Coordinator, CoordinatorResult, Effect, Flight, Lookup, Outcome, Server, Source, aborted, calls,
  dispatch_coordinator, found, job_started, lookup_failed, not_found, rejected, resolved, responds,
}
use personal_knowledge_mcp.UpdateJobs.Trigger.{
  admit, close_job, is_due, land, settle, start_update, trigger,
}

module _ {K I : Type 0} where
  -- The coordinators that a step calls.
  abbrev pub coordinator_calls : List (Effect K I) → List (Coordinator × K)
  coordinator_calls [] = []
  coordinator_calls (calls c r ∷ out) = (c, r) ∷ coordinator_calls out
  coordinator_calls (responds n x ∷ out) = coordinator_calls out

module _ {K I E : Type 0} (dec : Discrete K) (dec_id : Discrete I) (timeout_message : E) where
  busy_check :
      (now : ℕ) (r : K) (l : RateLimiter K)
      → is_in_progress dec r l ≡ true
      → can_trigger dec now r l ≡ update_running
  unfolding is_in_progress can_trigger
  busy_check now r l h = ground arith

  busy_admit :
      (now : ℕ) (r : K) (is_async : Bool) (i : I) (c : Coordinator) (s : Server K I E)
      → is_in_progress dec r s.limiter ≡ true
      → let (s1, out) = admit dec dec_id timeout_message now r is_async i c s in
        (coordinator_calls out ≡ []) × (s1 ≡ record s { call_count = s.call_count + 1 })
  unfolding admit
  busy_admit now r is_async i c s h = elim (Option-cases (get_running_job dec dec_id r s.tracker)) [
    | inl e ↦ rw (e, busy_check now r s.limiter h, admit) (refl, refl)
    | inr (job, e) ↦ rw (e, admit) (refl, refl)
  ]

  -- While a repository is marked as in progress, no call starts an update of it: whatever the
  -- lookup gave, no coordinator is called, and of the server only the number of calls changes.
  pub busy_trigger :
      (now : ℕ) (r : K) (is_async : Bool) (i : I) (lookup : Lookup) (s : Server K I E)
      → is_in_progress dec r s.limiter ≡ true
      → let (s1, out) = trigger dec dec_id timeout_message now r is_async i lookup s in
        (coordinator_calls out ≡ []) × (s1 ≡ record s { call_count = s.call_count + 1 })
  unfolding trigger
  busy_trigger now r is_async i not_found s h = (refl, refl)
  busy_trigger now r is_async i (lookup_failed true) s h = (refl, refl)
  busy_trigger now r is_async i (lookup_failed false) s h = (refl, refl)
  busy_trigger now r is_async i (found source) s h =
      elim (Option-cases (dispatch_coordinator source s.has_folder_coordinator)) [
        | inl e ↦ rw (e, trigger) (refl, refl)
        | inr (c, e) ↦ rw (e, trigger) (busy_admit now r is_async i c s h)
      ]

  -- A call for an indexed repository that has a coordinator, no active job and is not limited
  -- calls that coordinator, once; the repository is in progress, its update is the flight with
  -- the call's number, and an asynchronous call is answered with the id of its new job.
  pub free_trigger :
      (now : ℕ) (r : K) (is_async : Bool) (i : I) (source : Source) (c : Coordinator)
      (s : Server K I E)
      → dispatch_coordinator source s.has_folder_coordinator ≡ some c
      → get_running_job dec dec_id r s.tracker ≡ none
      → can_trigger dec now r s.limiter ≡ allowed
      → let (s1, out) = trigger dec dec_id timeout_message now r is_async i (found source) s in
        (out ≡ (
          if is_async
          then calls c r ∷ responds s.call_count (job_started i) ∷ []
          else calls c r ∷ []))
        × (is_in_progress dec r s1.limiter ≡ true)
        × (get ℕ_discrete s.call_count s1.flights
            ≡ some (record {
              repository = r;
              job = if is_async then some i else none;
              started_at = now;
            }))
  unfolding trigger admit start_update
  free_trigger now r true i source c s e j a =
      rw (e, trigger, j, admit, a)
        (
          refl,
          progress-mark_in_progress dec r r s.limiter ∙ if_pos (dec r r) refl _ _,
          get-set_self ℕ_discrete s.call_count _ s.flights,
        )
  free_trigger now r false i source c s e j a =
      rw (e, trigger, j, admit, a)
        (
          refl,
          progress-mark_in_progress dec r r s.limiter ∙ if_pos (dec r r) refl _ _,
          get-set_self ℕ_discrete s.call_count _ s.flights,
        )

  -- The update of the flight is over: its repository is not in progress, the flight is gone, and
  -- at a later time the repository may be triggered exactly when the cooldown has passed.
  abbrev pub IsReleased : ℕ → ℕ → ℕ → Flight K I → Server K I E → Server K I E → Type 0
  IsReleased now later n f s s1 =
      (is_in_progress dec f.repository s1.limiter ≡ false)
      × (get ℕ_discrete n s1.flights ≡ none)
      × (can_trigger dec later f.repository s1.limiter ≡ (
          if leb (now + s.limiter.cooldown_ms) later
          then allowed
          else rate_limited (now + s.limiter.cooldown_ms - later)))

  land_releases :
      (now later n : ℕ) (f : Flight K I) (outcome : Outcome E) (s : Server K I E)
      → IsReleased now later n f s (land dec dec_id timeout_message now n f outcome s).0
  unfolding land
  land_releases now later n f outcome s =
      let released =
        progress-mark_complete dec now f.repository f.repository s.limiter
        ∙ if_pos (dec f.repository f.repository) refl _ _ in
      let gone = get-delete_self ℕ_discrete n s.flights in
      let waits = can_trigger-mark_complete dec now later f.repository s.limiter in
      elim (Option-cases f.job) [
        | inl j ↦ rw (j, land) (released, gone, waits)
        | inr (i, j) ↦ rw (j, land) (released, gone, waits)
      ]

  -- When an update in flight ends (by the abort only once its timeout has passed), however it
  -- ends, its repository is no longer in progress, the flight is gone, and the repository may be
  -- triggered again exactly when the cooldown since that moment has passed; until then the wait
  -- reported is what is left of it.
  pub settle_releases :
      (now later n : ℕ) (f : Flight K I) (outcome : Outcome E) (s : Server K I E)
      → get ℕ_discrete n s.flights ≡ some f
      → is_due now f outcome ≡ true
      → IsReleased now later n f s (settle dec dec_id timeout_message now n outcome s).0
  unfolding settle
  settle_releases now later n f outcome s e due =
      rw (e, due, settle) (land_releases now later n f outcome s)

  -- A job as the end of its update leaves it.
  abbrev pub closed :
      ℕ → Outcome E → UpdateJob K I CoordinatorResult E → UpdateJob K I CoordinatorResult E
  closed now (resolved r) job = record job {
    status = completed;
    completed_at = some now;
    result = some r;
  }
  closed now (rejected e mentions) job = record job {
    status = if mentions then timed_out else failed;
    completed_at = some now;
    error = some (if mentions then timeout_message else e);
  }
  closed now aborted job = record job {
    status = timed_out;
    completed_at = some now;
    error = some timeout_message;
  }

  get-change_job :
      (i : I) (change : UpdateJob K I CoordinatorResult E → UpdateJob K I CoordinatorResult E)
      (t : JobTracker K I CoordinatorResult E) {job : UpdateJob K I CoordinatorResult E}
      → get dec_id i t.jobs ≡ some job
      → get dec_id i (change_job dec dec_id i change t).jobs ≡ some (change job)
  unfolding change_job
  get-change_job i change t e = rw (e, change_job) (get-set_self dec_id i _ t.jobs)

  close_job-closed :
      (now : ℕ) (i : I) (outcome : Outcome E) (t : JobTracker K I CoordinatorResult E)
      {job : UpdateJob K I CoordinatorResult E}
      → get dec_id i t.jobs ≡ some job
      → get dec_id i (close_job dec dec_id timeout_message now i outcome t).jobs
        ≡ some (closed now outcome job)
  unfolding close_job complete fail time_out
  close_job-closed now i (resolved r) t {job} e = get-change_job i _ t e
  close_job-closed now i (rejected m true) t {job} e = get-change_job i _ t e
  close_job-closed now i (rejected m false) t {job} e = get-change_job i _ t e
  close_job-closed now i aborted t {job} e = get-change_job i _ t e

  -- When an asynchronous update in flight ends (by the abort only once its timeout has passed),
  -- its job, if the tracker has it, is completed with the coordinator's result, or timed out with
  -- the fixed message (after the abort, or an error that mentions a timeout), or failed with the
  -- coordinator's error, and dated with that moment.
  pub settle_closes_job :
      (now n : ℕ) (f : Flight K I) (i : I) (outcome : Outcome E) (s : Server K I E)
      {job : UpdateJob K I CoordinatorResult E}
      → get ℕ_discrete n s.flights ≡ some f
      → f.job ≡ some i
      → is_due now f outcome ≡ true
      → get dec_id i s.tracker.jobs ≡ some job
      → get dec_id i (settle dec dec_id timeout_message now n outcome s).0.tracker.jobs
        ≡ some (closed now outcome job)
  unfolding settle land
  settle_closes_job now n f i outcome s e j due has_job =
      rw (e, due, settle, j, land) (close_job-closed now i outcome s.tracker has_job)
