-- ===== src/Tests/Batching.antt =====
-- The debounced batcher on small runs (src/utils/debounce.ts).
use personal_knowledge_mcp.Base.{List, [], arith, none, refl, true, ℕ, ◌++◌, ◌∷◌, ◌≡◌}
use personal_knowledge_mcp.Debounce.Batcher.{
  Batcher, Event, cancel, clear_timers, debounce_fired, debounce_fires, debounce_started, execute,
  executes, execution_ended, execution_ends, flush, max_wait_fires, new_batcher, push, pushed, run,
  start_debounce_timer, start_max_wait_timer, step,
}
use personal_knowledge_mcp.Debounce.Batches.{executed_items, run_in_order}
use personal_knowledge_mcp.Debounce.Config.{DebounceConfig, validate}
use personal_knowledge_mcp.Debounce.Stranded.{fired_while_busy_strands}

program : Unit {0}
unfolding run step push flush cancel execute execution_ends start_debounce_timer
    start_max_wait_timer debounce_fires max_wait_fires clear_timers validate
program = tt

abbrev config : DebounceConfig
config = record { delay_ms = 100; max_wait_ms = none }

-- Two items, an execution, a third item that comes during it.
abbrev busy_day : List (ℕ × Event ℕ)
busy_day = (0, pushed 1) ∷ (50, pushed 2) ∷ (150, debounce_fired) ∷ (200, pushed 3) ∷ []

abbrev busy_batcher : Batcher ℕ
busy_batcher = (run config true busy_day new_batcher).0

busy_outputs :
    (run config true busy_day new_batcher).1
    ≡ debounce_started ∷ executes (1 ∷ 2 ∷ []) ∷ debounce_started ∷ []
unfolding program
busy_outputs = refl

run_in_order_example :
    1 ∷ 2 ∷ 3 ∷ []
    ≡ executed_items (run config true busy_day new_batcher).1
      ++ (run config true busy_day new_batcher).0.pending_items
unfolding program
run_in_order_example = run_in_order config busy_day new_batcher tt

fired_while_busy_strands_example :
    let (b1, out) =
      run config true ((300, debounce_fired) ∷ (400, execution_ended) ∷ []) busy_batcher in
    (out ≡ []) × (b1.pending_items ≡ 3 ∷ [])
unfolding program
fired_while_busy_strands_example =
    fired_while_busy_strands config true 300 300 ((400, execution_ended) ∷ []) busy_batcher refl
      refl (omega arith) refl tt

-- Two items wait, and nothing is executed.
abbrev filled : Batcher ℕ
filled = (run config true ((0, pushed 1) ∷ (50, pushed 2) ∷ []) new_batcher).0
