-- ===== src/Retry/Loop.antt =====
-- `withRetry` and its options (src/utils/retry.ts). The operation is a function on a state, and
-- what it did to it is what its next call finds.
use personal_knowledge_mcp.Base.{
  Bool, List, Option, [], false, none, some, suc, true, zero, ℕ, ◌+◌, ◌∷◌,
}
use personal_knowledge_mcp.Retry.Backoff.{
  RetryConfig, default_exponential_backoff, exponential_backoff,
}

pub data Outcome (E T : Type 0) : Type 0 where
  throws : E → Outcome E T
  returns : T → Outcome E T

pub record RetryOptions (E : Type 0) : Type 0 where
  pub max_retries : ℕ
  pub should_retry : Option (E → Bool)
  pub calculate_backoff : Option (ℕ → E → ℕ)

-- A retry: what `onRetry` is told, and how long the loop then sleeps.
pub record Retry (E : Type 0) : Type 0 where
  pub attempt : ℕ
  pub error : E
  pub delay_ms : ℕ

module _ {E : Type 0} where
  abbrev pub retries_on : Option (E → Bool) → E → Bool
  retries_on none e = true
  retries_on (some f) e = f e

  abbrev pub backoff_of : Option (ℕ → E → ℕ) → ℕ → E → ℕ
  backoff_of none attempt e = default_exponential_backoff attempt
  backoff_of (some f) attempt e = f attempt e

  abbrev pub backoff_or : RetryConfig → Option (ℕ → E → ℕ) → ℕ → E → ℕ
  backoff_or c none attempt e = exponential_backoff c attempt
  backoff_or c (some f) attempt e = f attempt e

  -- `createRetryOptions` with an optional `shouldRetry` and `calculateBackoff` as overrides.
  unfoldable pub create_retry_options :
      RetryConfig → Option (E → Bool) → Option (ℕ → E → ℕ) → RetryOptions E
  create_retry_options c should_retry override = record {
    max_retries = c.max_retries;
    should_retry = should_retry;
    calculate_backoff = some (backoff_or c override);
  }

module _ {E T S : Type 0} (o : RetryOptions E) (operation : S → Outcome E T × S) where
  -- The loop from an attempt on, with the number of retries that are left.
  unfoldable pub retry_loop : ℕ → ℕ → S → Outcome E T × S × List (Retry E)
  retry_loop zero attempt s = let (r, s1) = operation s in (r, s1, [])
  retry_loop (suc left) attempt s =
      let (r, s1) = operation s in
      elim r [
        | returns t ↦ (returns t, s1, [])
        | throws e ↦ elim (retries_on o.should_retry e) [
          | false ↦ (throws e, s1, [])
          | true ↦
              let (r2, s2, retries) = retry_loop left (attempt + 1) s1 in
              (
                r2,
                s2,
                record {
                  attempt = attempt;
                  error = e;
                  delay_ms = backoff_of o.calculate_backoff attempt e;
                }
                    ∷ retries,
              )
        ]
      ]

  -- `withRetry`: its outcome, the state after it, and the retries that it made.
  unfoldable pub with_retry : S → Outcome E T × S × List (Retry E)
  unfolding retry_loop
  with_retry s = retry_loop o.max_retries 0 s
