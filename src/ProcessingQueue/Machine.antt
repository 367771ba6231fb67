-- ===== src/ProcessingQueue/Machine.antt =====
-- The operations of `ProcessingQueue` and the callbacks of its timers and promises
-- (src/services/processing-queue.ts), each with the clock's value and the outputs it causes.
use personal_knowledge_mcp.Base.{
  Bool, List, [], drop, false, filter_by, if◌then◌else◌, is_some, leb, length, ltb, none, not, some,
  take, true, ℕ, ◌&&◌, ◌++◌, ◌+◌, ◌||◌, ◌∷◌,
}
use personal_knowledge_mcp.ProcessingQueue.Config.{Config}
use personal_knowledge_mcp.ProcessingQueue.State.{
  BatchRecord, Output, Queue, QueueState, accepted, awaiting, draining, handed, idle, processing,
  queue_full, queue_stopped, refused, shutdown_resolved, stopped,
}

abbrev pub is_idle : QueueState → Bool
is_idle idle = true
is_idle _ = false

abbrev pub is_draining : QueueState → Bool
is_draining draining = true
is_draining _ = false

abbrev pub is_stopped : QueueState → Bool
is_stopped stopped = true
is_stopped _ = false

abbrev pub is_busy : QueueState → Bool
is_busy processing = true
is_busy _ = false

abbrev pub is_empty {ℓ} : {A : Type ℓ} → List A → Bool
is_empty [] = true
is_empty (_ ∷ _) = false

abbrev pub rate_window_ms : ℕ
rate_window_ms = 60000

-- `r.completedAt >= now - RATE_WINDOW_MS`, with the subtraction moved over.
abbrev pub is_recent : ℕ → BatchRecord → Bool
is_recent now r = leb now (r.completed_at + rate_window_ms)

module _ {ℓ} {A : Type ℓ} where
  unfoldable pub clear_timers : Queue A → Queue A
  clear_timers q = record q { debounce_timer = none; max_wait_timer = none; retry_timer = none }

  unfoldable pub prune_stale_records : ℕ → Queue A → Queue A
  prune_stale_records now q = record q { batch_records = filter_by (is_recent now) q.batch_records }

  -- The function that `shutdown` stores in `drainPromiseResolve`.
  unfoldable pub resolve_drain : Queue A → Queue A × List (Output A)
  resolve_drain q = (
    record q {
      shutdown_timer = none;
      state = stopped;
      drain_resolve = false;
      drain_promise = false;
    },
    shutdown_resolved ∷ [],
  )

module _ {ℓ} {A : Type ℓ} (c : Config) (now : ℕ) where
  unfoldable pub reset_debounce_timer : Queue A → Queue A
  reset_debounce_timer q = record q { debounce_timer = some (now + c.batch_delay_ms) }

  unfoldable pub start_max_wait_timer : Queue A → Queue A
  start_max_wait_timer q =
      if is_some q.max_wait_timer
      then q
      else record q { max_wait_timer = some (now + c.max_batch_wait_ms) }

  -- The timers at the end of `enqueue`.
  unfoldable pub manage_timers : Queue A → Queue A
  unfolding reset_debounce_timer start_max_wait_timer
  manage_timers q = reset_debounce_timer (
      if is_some q.first_enqueue_time
      then q
      else start_max_wait_timer (record q { first_enqueue_time = some now }))

  unfoldable pub enqueue : A → Queue A → Queue A × List (Output A)
  unfolding manage_timers
  enqueue change q =
      if is_stopped q.state || is_draining q.state
      then (q, refused (queue_stopped q.state) ∷ [])
      else if leb c.max_queue_size (length q.queue)
      then (q, refused (queue_full (length q.queue) c.max_queue_size) ∷ [])
      else (
        manage_timers (record q {
          queue = q.queue ++ (change ∷ []);
          total_enqueued = q.total_enqueued + 1;
          peak_queue_depth =
              if ltb q.peak_queue_depth (length q.queue + 1)
              then length q.queue + 1
              else q.peak_queue_depth;
        }),
        accepted change ∷ [],
      )

  -- `processNextBatch` up to its first suspension, at the processor's promise.
  unfoldable pub process_next_batch : Queue A → Queue A × List (Output A)
  unfolding resolve_drain
  process_next_batch q =
      if q.is_processing
      then (q, [])
      else if is_empty q.queue
      then (if is_draining q.state && q.drain_resolve then resolve_drain q else (q, []))
      else let batch = take c.max_batch_size q.queue in
        (
          record q {
            is_processing = true;
            state = if is_idle q.state then processing else q.state;
            queue = drop c.max_batch_size q.queue;
            flight =
                some (record { batch = batch; started_at = now; attempt = 1; stage = awaiting });
          },
          handed batch 1 ∷ [],
        )

  -- The `finally` block of `processNextBatch` and the chaining below it.
  unfoldable pub settle : Queue A → Queue A × List (Output A)
  unfolding prune_stale_records process_next_batch resolve_drain
  settle q =
      let q1 = prune_stale_records now (record q { is_processing = false; flight = none }) in
      if not (is_empty q1.queue)
      then (if is_draining q1.state || is_busy q1.state then process_next_batch q1 else (q1, []))
      else if is_draining q1.state && q1.drain_resolve
      then resolve_drain q1
      else ((if is_busy q1.state then record q1 { state = idle } else q1), [])

  unfoldable pub on_timer_fired : Queue A → Queue A × List (Output A)
  unfolding clear_timers process_next_batch
  on_timer_fired q =
      let q1 = record (clear_timers q) { first_enqueue_time = none } in
      if not q1.is_processing && not (is_empty q1.queue) then process_next_batch q1 else (q1, [])
