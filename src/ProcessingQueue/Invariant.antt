-- ===== src/ProcessingQueue/Invariant.antt =====
-- What holds of a processing queue between two events (src/services/processing-queue.ts).
use personal_knowledge_mcp.Base.{
  Bool, List, Option, [], arith, drop, false, is_some, length, length-append, length-drop,
  length-take, min, none, some, take, true, ℕ, ◌+◌, ◌-◌, ◌∷◌, ◌≡◌, ◌≤◌,
}
use personal_knowledge_mcp.ProcessingQueue.Config.{
  Config, IsValidConfig, PartialConfig, merge_config, validate-IsValidConfig,
}
use personal_knowledge_mcp.ProcessingQueue.Events.{
  Event, debounce_fired, debounce_fires, enqueued, force_stop, force_stopped, get_metrics,
  max_wait_fired, max_wait_fires, metrics_read, processor_rejected, processor_rejects,
  processor_resolved, processor_resolves, retry_fired, retry_fires, run, shut_down, shutdown,
  shutdown_timer_fired, shutdown_timer_fires, step,
}
use personal_knowledge_mcp.ProcessingQueue.Machine.{enqueue, is_draining, is_empty}
use personal_knowledge_mcp.ProcessingQueue.State.{
  BatchProcessorResult, Flight, Queue, QueueState, construct, delaying, draining, idle, new_queue,
  processing, stopped,
}
use mathlib.Core.Option

abbrev pub is_live : QueueState → Bool
is_live idle = true
is_live processing = true
is_live draining = false
is_live stopped = false

module _ {ℓ} {A : Type ℓ} where
  -- A batch in flight is not empty, fits the batch size and has attempts left.
  abbrev pub FlightFits : Config → Option (Flight A) → Type 0
  FlightFits c none = Unit
  FlightFits c (some f) =
      (1 ≤ length f.batch)
      × (length f.batch ≤ c.max_batch_size)
      × (1 ≤ f.attempt)
      × (f.attempt ≤ c.max_retries + 1)

  -- The retry loop waits only while an attempt is left.
  abbrev pub HasRetry : Config → Option (Flight A) → Type 0
  HasRetry c none = Unit
  HasRetry c (some f) = f.stage ≡ delaying → f.attempt ≤ c.max_retries

pub record IsValid {ℓ} {A : Type ℓ} (c : Config) (q : Queue A) : Type 0 where
  pub bounded : length q.queue ≤ c.max_queue_size
  pub peaked : length q.queue ≤ q.peak_queue_depth
  pub peak_capped : q.peak_queue_depth ≤ c.max_queue_size
  pub working : q.is_processing ≡ is_some q.flight
  pub fits : FlightFits c q.flight
  pub has_retry : HasRetry c q.flight
  pub idle_rests : q.state ≡ idle → q.is_processing ≡ false
  pub busy_works : q.state ≡ processing → q.is_processing ≡ true
  pub drain_works : q.state ≡ draining → q.is_processing ≡ true
  pub drain_waits : q.drain_resolve ≡ is_draining q.state
  pub drain_promised : q.drain_promise ≡ q.drain_resolve
  pub drain_timed : is_some q.shutdown_timer ≡ q.drain_resolve
  pub idle_wakes : q.state ≡ idle → is_empty q.queue ≡ false → is_some q.debounce_timer ≡ true
  pub debounced : is_live q.state ≡ true → is_some q.debounce_timer ≡ is_some q.first_enqueue_time
  pub debounce_quiet : is_live q.state ≡ false → q.debounce_timer ≡ none
  pub max_wait_quiet : is_live q.state ≡ false → q.max_wait_timer ≡ none
  pub max_waits :
      is_live q.state ≡ true
      → q.max_wait_timer ≡ Option.map (λ t. t + c.max_batch_wait_ms) q.first_enqueue_time

module _ {ℓ} {A : Type ℓ} (c : Config) (v : IsValidConfig c) where
  pub new_queue-IsValid : IsValid {A = A} c new_queue
  new_queue-IsValid = ground arith

  batch_lengths :
      (q : Queue A)
      → (length (take c.max_batch_size q.queue) ≡ min c.max_batch_size (length q.queue))
        × (length (drop c.max_batch_size q.queue) ≡ length q.queue - c.max_batch_size)
  batch_lengths q = (length-take c.max_batch_size q.queue, length-drop c.max_batch_size q.queue)

  module _ (now : ℕ) where
    enqueue-IsValid : (x : A) {q : Queue A} → IsValid c q → IsValid c (enqueue c now x q).0
    unfolding enqueue
    enqueue-IsValid x {q} h = ground (arith, length-append q.queue (x ∷ []))

    force_stop-IsValid : {q : Queue A} → IsValid c q → IsValid c (force_stop c now q).0
    unfolding force_stop
    force_stop-IsValid {q} h = ground arith

    shutdown_timer_fires-IsValid :
        {q : Queue A} → IsValid c q → IsValid c (shutdown_timer_fires c now q).0
    unfolding shutdown_timer_fires
    shutdown_timer_fires-IsValid {q} h = ground arith

    get_metrics-IsValid : {q : Queue A} → IsValid c q → IsValid c (get_metrics c now q).0
    unfolding get_metrics
    get_metrics-IsValid {q} h = ground arith

    retry_fires-IsValid : {q : Queue A} → IsValid c q → IsValid c (retry_fires c now q).0
    unfolding retry_fires
    retry_fires-IsValid {q} h = ground arith

    shutdown-IsValid : {q : Queue A} → IsValid c q → IsValid c (shutdown c now q).0
    unfolding shutdown
    shutdown-IsValid {q} h = ground (arith, batch_lengths q)

    debounce_fires-IsValid : {q : Queue A} → IsValid c q → IsValid c (debounce_fires c now q).0
    unfolding debounce_fires
    debounce_fires-IsValid {q} h = ground (arith, batch_lengths q)

    processor_resolves-IsValid :
        (r : BatchProcessorResult) {q : Queue A}
        → IsValid c q
        → IsValid c (processor_resolves c now r q).0
    unfolding processor_resolves
    processor_resolves-IsValid r {q} h = ground (arith, batch_lengths q)

    processor_rejects-IsValid :
        {q : Queue A} → IsValid c q → IsValid c (processor_rejects c now q).0
    unfolding processor_rejects
    processor_rejects-IsValid {q} h = ground (arith, batch_lengths q)

    max_wait_fires-IsValid : {q : Queue A} → IsValid c q → IsValid c (max_wait_fires c now q).0
    unfolding max_wait_fires
    max_wait_fires-IsValid {q} h = ground (arith, batch_lengths q)

    -- Every call, timer and promise keeps the invariant.
    pub step-IsValid : (e : Event A) {q : Queue A} → IsValid c q → IsValid c (step c now e q).0
    unfolding step
    step-IsValid (enqueued x) h = enqueue-IsValid x h
    step-IsValid shut_down h = shutdown-IsValid h
    step-IsValid force_stopped h = force_stop-IsValid h
    step-IsValid debounce_fired h = debounce_fires-IsValid h
    step-IsValid max_wait_fired h = max_wait_fires-IsValid h
    step-IsValid retry_fired h = retry_fires-IsValid h
    step-IsValid shutdown_timer_fired h = shutdown_timer_fires-IsValid h
    step-IsValid (processor_resolved r) h = processor_resolves-IsValid r h
    step-IsValid processor_rejected h = processor_rejects-IsValid h
    step-IsValid metrics_read h = get_metrics-IsValid h

  -- With a valid configuration, every run from a queue in which the invariant holds, whatever the
  -- calls, timers and promises and in whatever order, ends in a queue in which the invariant
  -- holds.
  pub run-IsValid : (es : List (ℕ × Event A)) {q : Queue A} → IsValid c q → IsValid c (run c es q).0
  unfolding run
  run-IsValid [] h = h
  run-IsValid ((now, e) ∷ es) h = run-IsValid es (step-IsValid now e h)

-- Whatever partial configuration the constructor accepts, the merged configuration is valid
-- (batches are at least 1 and fit the queue, the delay fits the maximal wait, there are at most
-- 10 retries) and the new queue satisfies the invariant.
pub construct-IsValid {ℓ} :
    {A : Type ℓ} (p : PartialConfig) {c : Config}
    → construct p ≡ some c
    → IsValidConfig c × IsValid {A = A} c new_queue
unfolding construct
construct-IsValid p {c} h =
    let v : IsValidConfig c = ground (arith, validate-IsValidConfig (merge_config p)) in
    (v, new_queue-IsValid c v)
