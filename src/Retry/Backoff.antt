-- ===== src/Retry/Backoff.antt =====
-- The configuration of retries and the delays between them (src/utils/retry.ts), over natural
-- numbers, the multiplier included.
use personal_knowledge_mcp.Base.{arith, min, ℕ, ◌*◌, ◌^◌, ◌≤◌}
use native.Mathlib.Nat.{mul-le-mul_left, pow-le-pow_right}

pub record RetryConfig : Type 0 where
  pub max_retries : ℕ
  pub initial_delay_ms : ℕ
  pub max_delay_ms : ℕ
  pub backoff_multiplier : ℕ

abbrev pub default_retry_config : RetryConfig
default_retry_config = record {
  max_retries = 3;
  initial_delay_ms = 1000;
  max_delay_ms = 60000;
  backoff_multiplier = 2;
}

-- `createExponentialBackoff`; the function that it returns does not look at the error.
unfoldable pub exponential_backoff : RetryConfig → ℕ → ℕ
exponential_backoff c attempt =
    min (c.initial_delay_ms * c.backoff_multiplier ^ attempt) c.max_delay_ms

unfoldable pub default_exponential_backoff : ℕ → ℕ
default_exponential_backoff attempt = 2 ^ attempt * 1000

-- With a multiplier of at least 1, the delays of the configured backoff never shrink from one
-- retry to a later one, and never exceed the maximal delay.
pub backoff_grows :
    (c : RetryConfig) (m n : ℕ)
    → 1 ≤ c.backoff_multiplier
    → m ≤ n
    → (exponential_backoff c m ≤ exponential_backoff c n)
      × (exponential_backoff c n ≤ c.max_delay_ms)
unfolding exponential_backoff
backoff_grows c m n pos le =
    let grows = mul-le-mul_left c.initial_delay_ms (pow-le-pow_right pos le) in
    (omega (arith, grows), omega arith)
