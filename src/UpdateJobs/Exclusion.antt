-- ===== src/UpdateJobs/Exclusion.antt =====
-- The updates in flight of a repository against its mark in the rate limiter, over runs
-- (src/mcp/tools/trigger-incremental-update.ts).
use personal_knowledge_mcp.Base.{
  Bool, Bool-cases, List, Option, Option-cases, [], arith, false, inl, inr, none, refl, some, true,
  ℕ, ℕ_discrete, ◌+◌, ◌∷◌, ◌≡◌,
}
use personal_knowledge_mcp.JsMap.Defs.{delete, get, set}
use personal_knowledge_mcp.JsMap.Laws.{IsMap, delete-IsMap, set-IsMap}
use personal_knowledge_mcp.UpdateJobs.Flights.{
  NumbersBelow, count-delete, count-set, count_flights, delete-NumbersBelow, more-NumbersBelow,
  next_is_new, set-NumbersBelow,
}
use personal_knowledge_mcp.UpdateJobs.JobTracker.{UpdateJob, get_running_job}
use personal_knowledge_mcp.UpdateJobs.RateLimiter.{
  RateLimitCheckResult, allowed, can_trigger, is_in_progress, mark_complete, mark_in_progress,
  rate_limited, update_running,
}
use personal_knowledge_mcp.UpdateJobs.RateLimits.{
  allowed_idle, progress-mark_complete, progress-mark_in_progress,
}
use personal_knowledge_mcp.UpdateJobs.Server.{
  Coordinator, CoordinatorResult, Flight, Lookup, Outcome, Response, Server, caught, ceil_seconds,
  dispatch_coordinator, found, job_started, lookup_failed, not_found, rate_limited_for,
  repository_not_found, service_unavailable, update_in_progress,
}
use personal_knowledge_mcp.UpdateJobs.Trigger.{
  Event, admit, answer, is_due, land, run, settle, settled, start_update, step, trigger, triggered,
  watchdog_fired,
}

abbrev pub one_if : Bool → ℕ
one_if true = 1
one_if false = 0

module _ {K I E : Type 0} (dec : Discrete K) (dec_id : Discrete I) (timeout_message : E) where
  pub record IsExclusive (s : Server K I E) : Type 0 where
    pub numbered : NumbersBelow s.call_count s.flights
    pub distinct : IsMap ℕ_discrete s.flights
    pub exclusive :
        (r : K) → count_flights dec r s.flights ≡ one_if (is_in_progress dec r s.limiter)

  -- Starting a flight of an idle repository, or ending one, keeps the books.
  started-IsExclusive :
      (r : K) (f : Flight K I) (s : Server K I E)
      → f.repository ≡ r
      → IsExclusive s
      → is_in_progress dec r s.limiter ≡ false
      → IsExclusive (record s {
        limiter = mark_in_progress dec r s.limiter;
        flights = set ℕ_discrete s.call_count f s.flights;
        call_count = s.call_count + 1;
      })
  started-IsExclusive r f s e h idle = record {
    numbered = set-NumbersBelow s.call_count f s.flights h.numbered;
    distinct = set-IsMap ℕ_discrete s.call_count f s.flights h.distinct;
    exclusive = λ q. ground (
      arith,
      h.exclusive q,
      h.exclusive r,
      progress-mark_in_progress dec r q s.limiter,
      count-set dec q s.call_count f s.flights (next_is_new s.call_count s.flights h.numbered),
    );
  }

  ended-IsExclusive :
      (now n : ℕ) (f : Flight K I) (s : Server K I E)
      → IsExclusive s
      → get ℕ_discrete n s.flights ≡ some f
      → IsExclusive (record s {
        limiter = mark_complete dec now f.repository s.limiter;
        flights = delete ℕ_discrete n s.flights;
      })
  ended-IsExclusive now n f s h e = record {
    numbered = delete-NumbersBelow s.call_count n s.flights h.numbered;
    distinct = delete-IsMap ℕ_discrete n s.flights h.distinct;
    exclusive = λ q. ground (
      arith,
      h.exclusive q,
      progress-mark_complete dec now f.repository q s.limiter,
      count-delete dec q n f s.flights h.distinct e,
    );
  }

  answered-IsExclusive :
      (response : Response I) (s : Server K I E) → IsExclusive s → IsExclusive (answer response s).0
  answered-IsExclusive response s h = record {
    numbered = more-NumbersBelow s.call_count s.flights h.numbered;
    distinct = h.distinct;
    exclusive = h.exclusive;
  }

  start_update-IsExclusive :
      (now : ℕ) (r : K) (is_async : Bool) (i : I) (coordinator : Coordinator) (s : Server K I E)
      → IsExclusive s
      → is_in_progress dec r s.limiter ≡ false
      → IsExclusive (start_update dec dec_id timeout_message now r is_async i coordinator s).0
  unfolding start_update
  start_update-IsExclusive now r true i coordinator s h idle =
      let f : Flight K I = record { repository = r; job = some i; started_at = now } in
      let g = started-IsExclusive r f s refl h idle in
      record { numbered = g.numbered; distinct = g.distinct; exclusive = g.exclusive }
  start_update-IsExclusive now r false i coordinator s h idle =
      let f : Flight K I = record { repository = r; job = none; started_at = now } in
      started-IsExclusive r f s refl h idle

  admit-IsExclusive :
      (now : ℕ) (r : K) (is_async : Bool) (i : I) (coordinator : Coordinator) (s : Server K I E)
      → IsExclusive s
      → IsExclusive (admit dec dec_id timeout_message now r is_async i coordinator s).0
  unfolding admit
  admit-IsExclusive now r is_async i coordinator s h =
      go (get_running_job dec dec_id r s.tracker) refl (can_trigger dec now r s.limiter) refl
    where
      go :
          (o : Option (UpdateJob K I CoordinatorResult E))
          → get_running_job dec dec_id r s.tracker ≡ o
          → (check : RateLimitCheckResult) → can_trigger dec now r s.limiter ≡ check
          → IsExclusive (admit dec dec_id timeout_message now r is_async i coordinator s).0
      go (some job) e check f = rw (e, admit) (answered-IsExclusive (job_started job.id) s h)
      go none e update_running f = rw (e, f, admit) (answered-IsExclusive update_in_progress s h)
      go none e (rate_limited ms) f =
          rw (e, f, admit) (answered-IsExclusive (rate_limited_for (ceil_seconds ms)) s h)
      go none e allowed f =
          rw (e, f, admit)
            (start_update-IsExclusive now r is_async i coordinator s h
              (allowed_idle dec now r s.limiter f))

  trigger-IsExclusive :
      (now : ℕ) (r : K) (is_async : Bool) (i : I) (lookup : Lookup) (s : Server K I E)
      → IsExclusive s
      → IsExclusive (trigger dec dec_id timeout_message now r is_async i lookup s).0
  unfolding trigger dispatch_coordinator
  trigger-IsExclusive now r is_async i not_found s h = answered-IsExclusive repository_not_found s h
  trigger-IsExclusive now r is_async i (lookup_failed mentions) s h =
      answered-IsExclusive (caught mentions) s h
  trigger-IsExclusive now r is_async i (found source) s h =
      elim (Option-cases (dispatch_coordinator source s.has_folder_coordinator)) [
        | inl e ↦ rw (e, trigger) (answered-IsExclusive service_unavailable s h)
        | inr (coordinator, e) ↦
            rw (e, trigger) (admit-IsExclusive now r is_async i coordinator s h)
      ]

  land-IsExclusive :
      (now n : ℕ) (f : Flight K I) (outcome : Outcome E) (s : Server K I E)
      → IsExclusive s
      → get ℕ_discrete n s.flights ≡ some f
      → IsExclusive (land dec dec_id timeout_message now n f outcome s).0
  unfolding land
  land-IsExclusive now n f outcome s h e =
      let g = ended-IsExclusive now n f s h e in
      elim (Option-cases f.job) [
        | inl j ↦ rw (j, land) g
        | inr (i, j) ↦
            rw (j, land)
              (record { numbered = g.numbered; distinct = g.distinct; exclusive = g.exclusive })
      ]

  settle-IsExclusive :
      (now n : ℕ) (outcome : Outcome E) (s : Server K I E)
      → IsExclusive s
      → IsExclusive (settle dec dec_id timeout_message now n outcome s).0
  unfolding settle
  settle-IsExclusive now n outcome s h = elim (Option-cases (get ℕ_discrete n s.flights)) [
    | inl e ↦ rw (e, settle) h
    | inr (f, e) ↦ elim (Bool-cases (is_due now f outcome)) [
      | inl due ↦ rw (e, due, settle) (land-IsExclusive now n f outcome s h e)
      | inr early ↦ rw (e, early, settle) h
    ]
  ]

  abbrev pub NoWatchdog : List (ℕ × Event K I E) → Type 0
  NoWatchdog [] = Unit
  NoWatchdog ((now, triggered r is_async i lookup) ∷ es) = NoWatchdog es
  NoWatchdog ((now, settled n outcome) ∷ es) = NoWatchdog es
  NoWatchdog ((now, watchdog_fired n) ∷ es) = ⊥

  -- Say that the books are right if the calls in flight are distinct and numbered below the next
  -- number, and every repository has exactly one update in flight if it is marked as in progress
  -- and none if it is not. Any interleaving of calls and outcomes in which no failsafe timer
  -- fires leads from a server whose books are right to one whose books are right.
  pub run-IsExclusive :
      (es : List (ℕ × Event K I E)) (s : Server K I E)
      → IsExclusive s
      → NoWatchdog es
      → IsExclusive (run dec dec_id timeout_message es s).0
  unfolding run step
  run-IsExclusive [] s h w = h
  run-IsExclusive ((now, triggered r is_async i lookup) ∷ es) s h w =
      run-IsExclusive es (trigger dec dec_id timeout_message now r is_async i lookup s).0
        (trigger-IsExclusive now r is_async i lookup s h) w
  run-IsExclusive ((now, settled n outcome) ∷ es) s h w =
      run-IsExclusive es (settle dec dec_id timeout_message now n outcome s).0
        (settle-IsExclusive now n outcome s h) w
  run-IsExclusive ((now, watchdog_fired n) ∷ es) s h w = absurd w
