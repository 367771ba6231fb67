-- ===== src/ProcessingQueue/Wake.antt =====
-- Waiting queues and stopped ones (src/services/processing-queue.ts).
use personal_knowledge_mcp.Base.{
  List, [], arith, drop, false, or_default, refl, take, ℕ, ◌+◌, ◌∷◌, ◌≡◌, ◌≤◌,
}
use personal_knowledge_mcp.ProcessingQueue.Config.{Config, IsValidConfig}
use personal_knowledge_mcp.ProcessingQueue.Events.{
  Event, debounce_fired, debounce_fires, enqueued, force_stop, force_stopped, get_metrics,
  max_wait_fired, max_wait_fires, metrics_read, processor_rejected, processor_rejects,
  processor_resolved, processor_resolves, retry_fired, retry_fires, run, shut_down, shutdown,
  shutdown_timer_fired, shutdown_timer_fires, step,
}
use personal_knowledge_mcp.ProcessingQueue.Fifo.{
  accepted_items, accepted_items-append, handed_items, handed_items-append,
}
use personal_knowledge_mcp.ProcessingQueue.Invariant.{IsValid, step-IsValid}
use personal_knowledge_mcp.ProcessingQueue.Machine.{enqueue, is_empty}
use personal_knowledge_mcp.ProcessingQueue.State.{Queue, handed, idle, processing, stopped}

module _ {ℓ} {A : Type ℓ} (c : Config) where
  -- An idle queue that holds items, and in which the invariant holds, has a debounce timer: once
  -- its time has come and it fires, the first `maxBatchSize` items go to the processor as a first
  -- attempt, the others stay, and the queue is processing.
  pub idle_wakes :
      (now : ℕ) (q : Queue A)
      → IsValid c q
      → q.state ≡ idle
      → is_empty q.queue ≡ false
      → or_default q.debounce_timer 0 ≤ now
      → let (q1, out) = step c now debounce_fired q in
        (out ≡ handed (take c.max_batch_size q.queue) 1 ∷ [])
        × (q1.queue ≡ drop c.max_batch_size q.queue)
        × (q1.state ≡ processing)
  unfolding step debounce_fires
  idle_wakes now q h i n le = ground arith

  -- However often items arrive, an idle queue that holds items, and in which the invariant holds,
  -- has a max-wait timer which fires from the time of the first item plus `maxBatchWaitMs` on,
  -- and hands over the first `maxBatchSize` items as a first attempt; the others stay, and the
  -- queue is processing.
  pub idle_wakes_in_time :
      (now : ℕ) (q : Queue A)
      → IsValid c q
      → q.state ≡ idle
      → is_empty q.queue ≡ false
      → or_default q.first_enqueue_time 0 + c.max_batch_wait_ms ≤ now
      → let (q1, out) = step c now max_wait_fired q in
        (out ≡ handed (take c.max_batch_size q.queue) 1 ∷ [])
        × (q1.queue ≡ drop c.max_batch_size q.queue)
        × (q1.state ≡ processing)
  unfolding step max_wait_fires
  idle_wakes_in_time now q h i n le = ground arith

  module _ (v : IsValidConfig c) where
    step_stopped :
        (now : ℕ) (e : Event A) (q : Queue A)
        → IsValid c q
        → q.state ≡ stopped
        → let (q1, out) = step c now e q in
          (q1.state ≡ stopped) × (accepted_items out ≡ []) × (handed_items out ≡ [])
    unfolding step
    step_stopped now (enqueued x) q h s = unfold enqueue in ground arith
    step_stopped now shut_down q h s = unfold shutdown in ground arith
    step_stopped now force_stopped q h s = unfold force_stop in ground arith
    step_stopped now debounce_fired q h s = unfold debounce_fires in ground arith
    step_stopped now max_wait_fired q h s = unfold max_wait_fires in ground arith
    step_stopped now retry_fired q h s = unfold retry_fires in ground arith
    step_stopped now shutdown_timer_fired q h s = unfold shutdown_timer_fires in ground arith
    step_stopped now (processor_resolved r) q h s = unfold processor_resolves in ground arith
    step_stopped now processor_rejected q h s = unfold processor_rejects in ground arith
    step_stopped now metrics_read q h s = unfold get_metrics in ground arith

    -- With a valid configuration, a stopped queue in which the invariant holds stays stopped: it
    -- accepts nothing and hands out no batch for the first time, whatever happens.
    pub stopped_is_final :
        (es : List (ℕ × Event A)) (q : Queue A)
        → IsValid c q
        → q.state ≡ stopped
        → let (q1, out) = run c es q in
          (q1.state ≡ stopped) × (accepted_items out ≡ []) × (handed_items out ≡ [])
    unfolding run
    stopped_is_final [] q h s = (s, refl, refl)
    stopped_is_final ((now, e) ∷ es) q h s =
        let (q1, out) = step c now e q in
        let (s1, a1, h1) = step_stopped now e q h s in
        let (s2, a2, h2) = stopped_is_final es q1 (step-IsValid c v now e h) s1 in
        (
          s2,
          rw (accepted_items-append out (run c es q1).1, a1, a2),
          rw (handed_items-append out (run c es q1).1, h1, h2),
        )
