-- ===== src/Tests/Retries.antt =====
-- Retries on small runs (src/utils/retry.ts).
use personal_knowledge_mcp.Base.{[], if◌then◌else◌, ltb, none, refl, ℕ, ◌+◌, ◌∷◌, ◌≡◌}
use personal_knowledge_mcp.Retry.Attempts.{IsRun, with_retry-IsRun}
use personal_knowledge_mcp.Retry.Backoff.{
  default_exponential_backoff, default_retry_config, exponential_backoff,
}
use personal_knowledge_mcp.Retry.Loop.{
  Outcome, RetryOptions, create_retry_options, retry_loop, returns, throws, with_retry,
}

program : Unit {0}
unfolding with_retry retry_loop create_retry_options exponential_backoff default_exponential_backoff
program = tt

-- It fails until its third call, and counts its calls.
abbrev third_time : ℕ → Outcome ℕ ℕ × ℕ
third_time n = ((if ltb n 2 then throws n else returns 7), n + 1)

abbrev options : RetryOptions ℕ
options = create_retry_options default_retry_config none none

third_time_run : with_retry options third_time 0 ≡ (
  returns 7,
  3,
  record { attempt = 0; error = 0; delay_ms = 1000 }
      ∷ record { attempt = 1; error = 1; delay_ms = 2000 }
      ∷ [],
)
unfolding program
third_time_run = refl

with_retry-IsRun_example : IsRun options third_time 3 0 0 (with_retry options third_time 0)
unfolding program
with_retry-IsRun_example = with_retry-IsRun options third_time 0
