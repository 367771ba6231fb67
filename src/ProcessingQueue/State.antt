-- ===== src/ProcessingQueue/State.antt =====
-- The fields of `ProcessingQueue` (src/services/processing-queue.ts), the suspended
-- `processNextBatch` made explicit, and what the queue lets its callers see.
use personal_knowledge_mcp.Base.{Bool, List, Option, [], false, if◌then◌else◌, none, some, ℕ}
use personal_knowledge_mcp.ProcessingQueue.Config.{Config, PartialConfig, merge_config, validate}

pub data QueueState : Type 0 where
  idle processing draining stopped : QueueState

pub record BatchRecord : Type 0 where
  pub completed_at : ℕ
  pub processed_count : ℕ
  pub duration_ms : ℕ

-- What a batch processor resolves to. The list of errors is only logged.
pub record BatchProcessorResult : Type 0 where
  pub processed_count : ℕ
  pub error_count : ℕ

-- Where `processWithRetry` is suspended: on the processor's promise, or on the retry delay.
pub data Stage : Type 0 where
  awaiting delaying : Stage

-- The local variables of a suspended `processNextBatch` and `processWithRetry`.
pub record Flight {ℓ} (A : Type ℓ) : Type ℓ where
  pub batch : List A
  pub started_at : ℕ
  pub attempt : ℕ
  pub stage : Stage

-- A timer is the time from which it may fire. `drain_resolve` and `drain_promise` say whether
-- the fields `drainPromiseResolve` and `drainPromise` are set.
pub record Queue {ℓ} (A : Type ℓ) : Type ℓ where
  pub queue : List A
  pub state : QueueState
  pub debounce_timer : Option ℕ
  pub max_wait_timer : Option ℕ
  pub is_processing : Bool
  pub retry_timer : Option ℕ
  pub first_enqueue_time : Option ℕ
  pub drain_resolve : Bool
  pub drain_promise : Bool
  pub shutdown_timer : Option ℕ
  pub flight : Option (Flight A)
  pub total_enqueued : ℕ
  pub total_processed : ℕ
  pub total_batches : ℕ
  pub total_errors : ℕ
  pub peak_queue_depth : ℕ
  pub total_batch_duration_ms : ℕ
  pub batch_records : List BatchRecord

pub data Error : Type 0 where
  queue_stopped : QueueState → Error
  queue_full : ℕ → ℕ → Error

-- What a caller, or the processor, sees of a step: an item taken or refused, a batch handed to
-- the processor with the number of the attempt, and the promise of `shutdown` settled (the
-- rejection holds the number of items left and the timeout).
pub data Output {ℓ} (A : Type ℓ) : Type ℓ where
  accepted : A → Output A
  refused : Error → Output A
  handed : List A → ℕ → Output A
  shutdown_resolved : Output A
  shutdown_rejected : ℕ → ℕ → Output A

abbrev pub new_queue {ℓ} : {A : Type ℓ} → Queue A
new_queue = record {
  queue = [];
  state = idle;
  debounce_timer = none;
  max_wait_timer = none;
  is_processing = false;
  retry_timer = none;
  first_enqueue_time = none;
  drain_resolve = false;
  drain_promise = false;
  shutdown_timer = none;
  flight = none;
  total_enqueued = 0;
  total_processed = 0;
  total_batches = 0;
  total_errors = 0;
  peak_queue_depth = 0;
  total_batch_duration_ms = 0;
  batch_records = [];
}

-- The constructor: the merged configuration and the new queue, or the schema's error as `none`.
unfoldable pub construct : PartialConfig → Option Config
unfolding validate
construct p = if validate (merge_config p) then some (merge_config p) else none
