-- ===== src/ProcessingQueue/Events.antt =====
-- The public operations of `ProcessingQueue` that end or observe it, the callbacks of its timers
-- and promises, and runs of events (src/services/processing-queue.ts).
use personal_knowledge_mcp.Base.{
  List, Option, [], false, if◌then◌else◌, leb, length, ltb, none, not, some, true, ℕ, ◌&&◌, ◌++◌,
  ◌+◌, ◌-◌, ◌∷◌,
}
use personal_knowledge_mcp.ProcessingQueue.Config.{Config}
use personal_knowledge_mcp.ProcessingQueue.Machine.{
  clear_timers, enqueue, is_draining, is_empty, is_stopped, on_timer_fired, process_next_batch,
  prune_stale_records, resolve_drain, settle,
}
use personal_knowledge_mcp.ProcessingQueue.State.{
  BatchProcessorResult, Flight, Output, Queue, awaiting, delaying, draining, handed,
  shutdown_rejected, shutdown_resolved, stopped,
}

module _ {ℓ} {A : Type ℓ} (c : Config) (now : ℕ) where
  -- The executor of the drain promise, from an already cleared queue in state `draining`.
  unfoldable pub start_drain : Queue A → Queue A × List (Output A)
  unfolding process_next_batch
  start_drain q =
      let q1 = record q {
        shutdown_timer = some (now + c.shutdown_timeout_ms);
        drain_resolve = true;
      } in
      let (q2, out) = if q1.is_processing then (q1, []) else process_next_batch c now q1 in
      (record q2 { drain_promise = true }, out)

  unfoldable pub shutdown : Queue A → Queue A × List (Output A)
  unfolding clear_timers start_drain
  shutdown q =
      if is_stopped q.state
      then (q, shutdown_resolved ∷ [])
      else if is_draining q.state && q.drain_promise
      then (q, [])
      else let q1 = clear_timers (record q { state = draining }) in
        if is_empty q1.queue && not q1.is_processing
        then (record q1 { state = stopped }, shutdown_resolved ∷ [])
        else start_drain q1

  unfoldable pub force_stop : Queue A → Queue A × List (Output A)
  unfolding clear_timers resolve_drain
  force_stop q =
      let q1 = record (clear_timers q) { queue = []; first_enqueue_time = none; state = stopped } in
      if q1.drain_resolve then resolve_drain q1 else (q1, [])

  -- A timer's callback runs only once its time has come.
  abbrev pub when_due : Option ℕ → Queue A → Queue A × List (Output A) → Queue A × List (Output A)
  when_due none q fired = (q, [])
  when_due (some at) q fired = if leb at now then fired else (q, [])

  unfoldable pub debounce_fires : Queue A → Queue A × List (Output A)
  unfolding on_timer_fired
  debounce_fires q =
      when_due q.debounce_timer q (on_timer_fired c now (record q { debounce_timer = none }))

  unfoldable pub max_wait_fires : Queue A → Queue A × List (Output A)
  unfolding on_timer_fired
  max_wait_fires q =
      when_due q.max_wait_timer q (on_timer_fired c now (record q { max_wait_timer = none }))

  unfoldable pub shutdown_timer_fires : Queue A → Queue A × List (Output A)
  shutdown_timer_fires q = when_due q.shutdown_timer q (
    record q {
      shutdown_timer = none;
      state = stopped;
      drain_resolve = false;
      drain_promise = false;
    },
    shutdown_rejected (length q.queue) c.shutdown_timeout_ms ∷ [],
  )

  -- The metrics of a batch that ends after `duration` with these counts.
  unfoldable pub record_batch : ℕ → ℕ → ℕ → Queue A → Queue A
  record_batch duration processed errors q = record q {
    total_processed = q.total_processed + processed;
    total_errors = q.total_errors + errors;
    total_batches = q.total_batches + 1;
    total_batch_duration_ms = q.total_batch_duration_ms + duration;
    batch_records =
        q.batch_records
        ++ (record { completed_at = now; processed_count = processed; duration_ms = duration }
            ∷ []);
  }

  resolved_at : Option (Flight A) → BatchProcessorResult → Queue A → Queue A × List (Output A)
  resolved_at none r q = (q, [])
  resolved_at (some f) r q = elim f.stage [
    | awaiting ↦ settle c now (record_batch (now - f.started_at) r.processed_count r.error_count q)
    | delaying ↦ (q, [])
  ]

  rejected_at : Option (Flight A) → Queue A → Queue A × List (Output A)
  rejected_at none q = (q, [])
  rejected_at (some f) q = elim f.stage [
    | awaiting ↦
        if ltb f.attempt (c.max_retries + 1)
        then (
          record q {
            flight = some (record f { stage = delaying });
            retry_timer = some (now + c.retry_delay_ms);
          },
          [],
        )
        else settle c now (record_batch (now - f.started_at) 0 (length f.batch) q)
    | delaying ↦ (q, [])
  ]

  retried_at : Option (Flight A) → Queue A → Queue A × List (Output A)
  retried_at none q = (q, [])
  retried_at (some f) q = elim f.stage [
    | awaiting ↦ (q, [])
    | delaying ↦ (
      record q { flight = some (record f { attempt = f.attempt + 1; stage = awaiting }) },
      handed f.batch (f.attempt + 1) ∷ [],
    )
  ]

  -- The processor's promise resolves.
  unfoldable pub processor_resolves : BatchProcessorResult → Queue A → Queue A × List (Output A)
  unfolding resolved_at record_batch settle
  processor_resolves r q = resolved_at q.flight r q

  -- The processor's promise is rejected: `catch` in `processWithRetry`, and, after the last
  -- attempt, `catch` in `processNextBatch`.
  unfoldable pub processor_rejects : Queue A → Queue A × List (Output A)
  unfolding rejected_at record_batch settle
  processor_rejects q = rejected_at q.flight q

  -- The retry delay ends, and the loop of `processWithRetry` makes its next attempt.
  unfoldable pub retry_fires : Queue A → Queue A × List (Output A)
  unfolding retried_at
  retry_fires q = when_due q.retry_timer q (retried_at q.flight (record q { retry_timer = none }))

  -- `getMetrics` prunes the batch records.
  unfoldable pub get_metrics : Queue A → Queue A × List (Output A)
  unfolding prune_stale_records
  get_metrics q = (prune_stale_records now q, [])

-- What may happen to a queue. The clock's value comes beside it.
pub data Event {ℓ} (A : Type ℓ) : Type ℓ where
  enqueued : A → Event A
  shut_down : Event A
  force_stopped : Event A
  debounce_fired : Event A
  max_wait_fired : Event A
  retry_fired : Event A
  shutdown_timer_fired : Event A
  processor_resolved : BatchProcessorResult → Event A
  processor_rejected : Event A
  metrics_read : Event A

module _ {ℓ} {A : Type ℓ} (c : Config) where
  unfoldable pub step : ℕ → Event A → Queue A → Queue A × List (Output A)
  step now (enqueued x) q = enqueue c now x q
  step now shut_down q = shutdown c now q
  step now force_stopped q = force_stop c now q
  step now debounce_fired q = debounce_fires c now q
  step now max_wait_fired q = max_wait_fires c now q
  step now retry_fired q = retry_fires c now q
  step now shutdown_timer_fired q = shutdown_timer_fires c now q
  step now (processor_resolved r) q = processor_resolves c now r q
  step now processor_rejected q = processor_rejects c now q
  step now metrics_read q = get_metrics c now q

  -- Any interleaving of the queue's calls, timers and promises is a list of timed events.
  unfoldable pub run : List (ℕ × Event A) → Queue A → Queue A × List (Output A)
  run [] q = (q, [])
  run ((now, e) ∷ es) q =
      let (q1, out) = step now e q in let (q2, outs) = run es q1 in (q2, out ++ outs)
