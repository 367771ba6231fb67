-- ===== src/Tests/Queue.antt =====
-- The processing queue on small runs (src/services/processing-queue.ts).
use personal_knowledge_mcp.Base.{List, [], arith, false, inl, refl, some, true, ℕ, ◌++◌, ◌∷◌, ◌≡◌}
use personal_knowledge_mcp.ProcessingQueue.Attempts.{OutputsFit, run-OutputsFit}
use personal_knowledge_mcp.ProcessingQueue.Config.{
  Config, IsValidConfig, PartialConfig, merge_config, validate, validate-IsValidConfig,
}
use personal_knowledge_mcp.ProcessingQueue.Drain.{
  IsDraining, answers, count_resolved, drain_completes, shutdown-IsDraining,
}
use personal_knowledge_mcp.ProcessingQueue.Events.{
  Event, debounce_fired, debounce_fires, enqueued, max_wait_fired, max_wait_fires,
  processor_rejected, processor_rejects, processor_resolved, processor_resolves, retry_fired,
  retry_fires, run, shut_down, shutdown, step,
}
use personal_knowledge_mcp.ProcessingQueue.Fifo.{KeepsItems, accepted_items, handed_items, run-fifo}
use personal_knowledge_mcp.ProcessingQueue.Invariant.{IsValid, new_queue-IsValid, run-IsValid}
use personal_knowledge_mcp.ProcessingQueue.Machine.{clear_timers, enqueue}
use personal_knowledge_mcp.ProcessingQueue.Stall.{count_handed, debounce_stalls, shutdown_stalls}
use personal_knowledge_mcp.ProcessingQueue.State.{
  BatchProcessorResult, Queue, accepted, construct, handed, new_queue, processing, queue_full,
  refused, shutdown_resolved, stopped,
}
use personal_knowledge_mcp.ProcessingQueue.Wake.{idle_wakes_in_time, stopped_is_final}

program : Unit {0}
unfolding validate construct run step enqueue debounce_fires max_wait_fires shutdown
    processor_rejects processor_resolves retry_fires clear_timers
program = tt

-- Batches of two, room for three, one retry.
abbrev partial : PartialConfig
partial = record {
  max_batch_size = some 2;
  max_queue_size = some 3;
  batch_delay_ms = some 100;
  max_batch_wait_ms = some 300;
  max_retries = some 1;
  retry_delay_ms = some 100;
  shutdown_timeout_ms = some 1000;
}

abbrev small : Config
small = merge_config partial

abbrev small-IsValidConfig : IsValidConfig small
small-IsValidConfig = validate-IsValidConfig small (unfold validate in refl)

abbrev two : BatchProcessorResult
two = record { processed_count = 2; error_count = 0 }

abbrev arrivals : List (ℕ × Event ℕ)
arrivals = (0, enqueued 7) ∷ (10, enqueued 8) ∷ (20, enqueued 9) ∷ (30, enqueued 10) ∷ []

-- A failure, a retry, and a shutdown during the retry.
abbrev evening : List (ℕ × Event ℕ)
evening =
    arrivals
    ++ ((120, debounce_fired)
        ∷ (130, processor_rejected)
        ∷ (230, retry_fired)
        ∷ (240, shut_down)
        ∷ (250, processor_resolved two)
        ∷ (260, processor_resolved two)
        ∷ [])

evening_outputs :
    (run small evening new_queue).1
    ≡ accepted 7
      ∷ accepted 8
      ∷ accepted 9
      ∷ refused (queue_full 3 3)
      ∷ handed (7 ∷ 8 ∷ []) 1
      ∷ handed (7 ∷ 8 ∷ []) 2
      ∷ handed (9 ∷ []) 1
      ∷ shutdown_resolved
      ∷ []
unfolding program
evening_outputs = refl

abbrev after : List (ℕ × Event ℕ) → Queue ℕ
after es = (run small es new_queue).0

after-IsValid : (es : List (ℕ × Event ℕ)) → IsValid small (after es)
after-IsValid es =
    run-IsValid small small-IsValidConfig es (new_queue-IsValid small small-IsValidConfig)

-- Three items wait.
abbrev waiting : Queue ℕ
waiting = after arrivals

-- A batch is at the processor.
abbrev busy : Queue ℕ
busy = after (arrivals ++ ((120, debounce_fired) ∷ []))

-- A batch waits for its retry, and an item has come since.
abbrev delayed : Queue ℕ
delayed =
    after
      (arrivals ++ ((120, debounce_fired) ∷ (130, processor_rejected) ∷ (140, enqueued 11) ∷ []))

abbrev drained : Queue ℕ
drained = after evening

run-IsValid_example : IsValid small (run small evening new_queue).0
run-IsValid_example =
    run-IsValid small small-IsValidConfig evening (new_queue-IsValid small small-IsValidConfig)

evening-KeepsItems : KeepsItems evening
evening-KeepsItems = ground arith

run-fifo_example :
    accepted_items (run small evening new_queue).1
    ≡ handed_items (run small evening new_queue).1 ++ (run small evening new_queue).0.queue
run-fifo_example =
    run-fifo small small-IsValidConfig evening new_queue
      (new_queue-IsValid small small-IsValidConfig) evening-KeepsItems

run-OutputsFit_example : OutputsFit small (run small evening new_queue).1
run-OutputsFit_example =
    run-OutputsFit small small-IsValidConfig evening new_queue
      (new_queue-IsValid small small-IsValidConfig)

idle_wakes_in_time_example :
    let (q1, out) = step small 300 max_wait_fired waiting in
    (out ≡ handed (7 ∷ 8 ∷ []) 1 ∷ []) × (q1.queue ≡ 9 ∷ []) × (q1.state ≡ processing)
unfolding program
idle_wakes_in_time_example =
    idle_wakes_in_time small 300 waiting (after-IsValid arrivals) refl refl (omega arith)

evening-IsDraining : IsDraining small (step small 125 shut_down busy).0
unfolding program
evening-IsDraining =
    shutdown-IsDraining small 125 busy (after-IsValid (arrivals ++ ((120, debounce_fired) ∷ [])))
      refl (inl refl) (λ _. refl)

drain_completes_example :
    let (q1, out) =
      run small (answers ((250, two) ∷ (260, two) ∷ [])) (step small 125 shut_down busy).0 in
    (q1.state ≡ stopped) × (q1.queue ≡ []) × (q1.is_processing ≡ false) × (count_resolved out ≡ 1)
unfolding program
drain_completes_example =
    drain_completes small (250, two) ((260, two) ∷ []) (step small 125 shut_down busy).0
      evening-IsDraining (omega arith) (omega arith)

stopped_is_final_example :
    let (q1, out) = run small arrivals drained in
    (q1.state ≡ stopped) × (accepted_items out ≡ []) × (handed_items out ≡ [])
unfolding program
stopped_is_final_example =
    stopped_is_final small small-IsValidConfig arrivals drained (after-IsValid evening) refl

debounce_stalls_example :
    (count_handed (run small arrivals (step small 240 debounce_fired delayed).0).1 ≡ 0)
    × ((run small arrivals (step small 240 debounce_fired delayed).0).0.is_processing ≡ true)
unfolding program
debounce_stalls_example =
    debounce_stalls small 240 240 delayed arrivals refl refl refl (omega arith)

shutdown_stalls_example :
    (count_handed (run small arrivals (step small 150 shut_down delayed).0).1 ≡ 0)
    × ((run small arrivals (step small 150 shut_down delayed).0).0.is_processing ≡ true)
unfolding program
shutdown_stalls_example = shutdown_stalls small 150 delayed arrivals refl refl refl
