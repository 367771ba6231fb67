-- ===== src/ProcessingQueue/Config.antt =====
-- The queue's configuration, its defaults and its validation
-- (src/services/processing-queue-types.ts, src/services/processing-queue-validation.ts).
use personal_knowledge_mcp.Base.{Bool, Option, arith, leb, or_default, true, ℕ, ◌&&◌, ◌≡◌, ◌≤◌}

-- The partial configuration that a caller gives; `none` is a field left out.
pub record PartialConfig : Type 0 where
  pub max_batch_size : Option ℕ
  pub max_queue_size : Option ℕ
  pub batch_delay_ms : Option ℕ
  pub max_batch_wait_ms : Option ℕ
  pub max_retries : Option ℕ
  pub retry_delay_ms : Option ℕ
  pub shutdown_timeout_ms : Option ℕ

pub record Config : Type 0 where
  pub max_batch_size : ℕ
  pub max_queue_size : ℕ
  pub batch_delay_ms : ℕ
  pub max_batch_wait_ms : ℕ
  pub max_retries : ℕ
  pub retry_delay_ms : ℕ
  pub shutdown_timeout_ms : ℕ

abbrev pub default_config : Config
default_config = record {
  max_batch_size = 50;
  max_queue_size = 1000;
  batch_delay_ms = 2000;
  max_batch_wait_ms = 30000;
  max_retries = 2;
  retry_delay_ms = 5000;
  shutdown_timeout_ms = 30000;
}

-- `{ ...DEFAULT_PROCESSING_QUEUE_CONFIG, ...config }`
abbrev pub merge_config : PartialConfig → Config
merge_config p = record {
  max_batch_size = or_default p.max_batch_size default_config.max_batch_size;
  max_queue_size = or_default p.max_queue_size default_config.max_queue_size;
  batch_delay_ms = or_default p.batch_delay_ms default_config.batch_delay_ms;
  max_batch_wait_ms = or_default p.max_batch_wait_ms default_config.max_batch_wait_ms;
  max_retries = or_default p.max_retries default_config.max_retries;
  retry_delay_ms = or_default p.retry_delay_ms default_config.retry_delay_ms;
  shutdown_timeout_ms = or_default p.shutdown_timeout_ms default_config.shutdown_timeout_ms;
}

abbrev between : ℕ → ℕ → ℕ → Bool
between lo hi x = leb lo x && leb x hi

-- The schema, on a configuration that has every field.
unfoldable pub validate : Config → Bool
validate c =
    between 1 1000 c.max_batch_size
    && between 1 100000 c.max_queue_size
    && between 100 300000 c.batch_delay_ms
    && between 100 300000 c.max_batch_wait_ms
    && between 0 10 c.max_retries
    && between 100 60000 c.retry_delay_ms
    && between 1000 300000 c.shutdown_timeout_ms
    && leb c.batch_delay_ms c.max_batch_wait_ms
    && leb c.max_batch_size c.max_queue_size

-- What the queue relies on.
pub record IsValidConfig (c : Config) : Type 0 where
  pub batch_pos : 1 ≤ c.max_batch_size
  pub batch_fits : c.max_batch_size ≤ c.max_queue_size
  pub delay_fits : c.batch_delay_ms ≤ c.max_batch_wait_ms
  pub retries_capped : c.max_retries ≤ 10

pub validate-IsValidConfig : (c : Config) → validate c ≡ true → IsValidConfig c
unfolding validate
validate-IsValidConfig c h = ground arith
