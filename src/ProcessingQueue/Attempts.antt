-- ===== src/ProcessingQueue/Attempts.antt =====
-- What reaches the processor, when, and how often (src/services/processing-queue.ts).
use personal_knowledge_mcp.Base.{
  List, [], arith, false, length, length-take, take, ℕ, ◌++◌, ◌+◌, ◌∷◌, ◌≡◌, ◌≤◌,
}
use personal_knowledge_mcp.ProcessingQueue.Config.{Config, IsValidConfig}
use personal_knowledge_mcp.ProcessingQueue.Events.{
  Event, debounce_fired, debounce_fires, enqueued, force_stop, force_stopped, get_metrics,
  max_wait_fired, max_wait_fires, metrics_read, processor_rejected, processor_rejects,
  processor_resolved, processor_resolves, retry_fired, retry_fires, run, shut_down, shutdown,
  shutdown_timer_fired, shutdown_timer_fires, step,
}
use personal_knowledge_mcp.ProcessingQueue.Invariant.{IsValid, step-IsValid}
use personal_knowledge_mcp.ProcessingQueue.Machine.{enqueue, is_empty}
use personal_knowledge_mcp.ProcessingQueue.State.{
  Output, Queue, accepted, handed, refused, shutdown_rejected, shutdown_resolved,
}

module _ {ℓ} {A : Type ℓ} (c : Config) where
  -- A batch at the processor is not empty, no larger than configured, and not tried too often.
  abbrev pub OutputFits : Output A → Type 0
  OutputFits (handed batch n) =
      (1 ≤ length batch) × (length batch ≤ c.max_batch_size) × (1 ≤ n) × (n ≤ c.max_retries + 1)
  OutputFits (accepted x) = Unit
  OutputFits (refused e) = Unit
  OutputFits shutdown_resolved = Unit
  OutputFits (shutdown_rejected n t) = t ≡ c.shutdown_timeout_ms

  abbrev pub OutputsFit : List (Output A) → Type 0
  OutputsFit [] = Unit
  OutputsFit (o ∷ out) = OutputFits o × OutputsFit out

  OutputsFit-append : (o p : List (Output A)) → OutputsFit o → OutputsFit p → OutputsFit (o ++ p)
  OutputsFit-append [] p h k = k
  OutputsFit-append (x ∷ o) p (hx, ho) k = (hx, OutputsFit-append o p ho k)

  module _ (v : IsValidConfig c) where
    batch_fits :
        (q : Queue A)
        → is_empty q.queue ≡ false
        → (1 ≤ length (take c.max_batch_size q.queue))
          × (length (take c.max_batch_size q.queue) ≤ c.max_batch_size)
    batch_fits q h = ground (arith, length-take c.max_batch_size q.queue)

    step-OutputsFit :
        (now : ℕ) (e : Event A) (q : Queue A) → IsValid c q → OutputsFit (step c now e q).1
    unfolding step
    step-OutputsFit now (enqueued x) q h = unfold enqueue in ground arith
    step-OutputsFit now shut_down q h = unfold shutdown in ground (arith, batch_fits q)
    step-OutputsFit now force_stopped q h = unfold force_stop in ground arith
    step-OutputsFit now debounce_fired q h = unfold debounce_fires in ground (arith, batch_fits q)
    step-OutputsFit now max_wait_fired q h = unfold max_wait_fires in ground (arith, batch_fits q)
    step-OutputsFit now retry_fired q h = unfold retry_fires in ground arith
    step-OutputsFit now shutdown_timer_fired q h = unfold shutdown_timer_fires in ground arith
    step-OutputsFit now (processor_resolved r) q h =
        unfold processor_resolves in ground (arith, batch_fits q)
    step-OutputsFit now processor_rejected q h =
        unfold processor_rejects in ground (arith, batch_fits q)
    step-OutputsFit now metrics_read q h = unfold get_metrics in tt

    -- With a valid configuration, in any run of a queue in which the invariant holds, every batch
    -- handed to the processor has from 1 to `maxBatchSize` items and is attempt number 1 to
    -- `maxRetries + 1`, and a shutdown that times out reports the configured timeout.
    pub run-OutputsFit :
        (es : List (ℕ × Event A)) (q : Queue A) → IsValid c q → OutputsFit (run c es q).1
    unfolding run
    run-OutputsFit [] q h = tt
    run-OutputsFit ((now, e) ∷ es) q h =
        OutputsFit-append (step c now e q).1 (run c es (step c now e q).0).1
          (step-OutputsFit now e q h)
          (run-OutputsFit es (step c now e q).0 (step-IsValid c v now e h))
