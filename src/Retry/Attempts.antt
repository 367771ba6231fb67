-- ===== src/Retry/Attempts.antt =====
-- The attempts of `withRetry` (src/utils/retry.ts).
use personal_knowledge_mcp.Base.{
  Bool, Bool-cases, List, Option, [], ap, ap₂, arith, false, inl, inr, length, none, refl, suc, sym,
  true, zero, ℕ, ◌*◌, ◌++◌, ◌+◌, ◌∷◌, ◌≡◌, ◌≤◌, ◌⊎◌,
}
use personal_knowledge_mcp.Retry.Backoff.{RetryConfig, exponential_backoff}
use personal_knowledge_mcp.Retry.Loop.{
  Outcome, Retry, RetryOptions, backoff_of, create_retry_options, retries_on, retry_loop, returns,
  throws, with_retry,
}
use native.Mathlib.Nat.{le_trans, mul-le-mul_right}

Outcome-cases :
    {E T : Type 0} (r : Outcome E T) → ((t : T) × (r ≡ returns t)) ⊎ ((e : E) × (r ≡ throws e))
Outcome-cases (returns t) = inl (t, refl)
Outcome-cases (throws e) = inr (e, refl)

-- Numbers from a first one on, this many.
abbrev pub count_from : ℕ → ℕ → List ℕ
count_from first zero = []
count_from first (suc n) = first ∷ count_from (first + 1) n

abbrev pub attempts_of : {E : Type 0} → List (Retry E) → List ℕ
attempts_of [] = []
attempts_of (x ∷ xs) = x.attempt ∷ attempts_of xs

abbrev pub errors_of : {E T : Type 0} → List (Retry E) → List (Outcome E T)
errors_of [] = []
errors_of (x ∷ xs) = throws x.error ∷ errors_of xs

module _ {E T S : Type 0} (o : RetryOptions E) (operation : S → Outcome E T × S) where
  -- The state after some calls of the operation, and their outcomes.
  abbrev pub after : ℕ → S → S
  after zero s = s
  after (suc n) s = after n (operation s).1

  abbrev pub outcomes : ℕ → S → List (Outcome E T)
  outcomes zero s = []
  outcomes (suc n) s = (operation s).0 ∷ outcomes n (operation s).1

  -- Every retry was for an error that is retried, with the delay that the backoff gives.
  abbrev pub AllRetried : List (Retry E) → Type 0
  AllRetried [] = Unit
  AllRetried (x ∷ xs) =
      (retries_on o.should_retry x.error ≡ true)
      × (x.delay_ms ≡ backoff_of o.calculate_backoff x.attempt x.error)
      × AllRetried xs

  -- The loop ends with a result, or with an error that is not retried, or with no retry left.
  abbrev pub IsFinal : ℕ → Outcome E T → ℕ → Type 0
  IsFinal limit (returns t) n = Unit
  IsFinal limit (throws e) n = (n ≡ limit) ⊎ (retries_on o.should_retry e ≡ false)

  IsFinal-suc :
      (limit : ℕ) (r : Outcome E T) (n : ℕ) → IsFinal limit r n → IsFinal (suc limit) r (suc n)
  IsFinal-suc limit (returns t) n h = tt
  IsFinal-suc limit (throws e) n (inl h) = inl (ap suc h)
  IsFinal-suc limit (throws e) n (inr h) = inr h

  pub record IsRun (limit first : ℕ) (s : S) (made : Outcome E T × S × List (Retry E))
      : Type 0 where
    pub bounded : length made.2 ≤ limit
    pub in_order : errors_of made.2 ++ (made.0 ∷ []) ≡ outcomes (suc (length made.2)) s
    pub state_after : made.1 ≡ after (suc (length made.2)) s
    pub numbered : attempts_of made.2 ≡ count_from first (length made.2)
    pub retried : AllRetried made.2
    pub final : IsFinal limit made.0 (length made.2)

  loop-IsRun : (left first : ℕ) (s : S) → IsRun left first s (retry_loop o operation left first s)
  unfolding retry_loop
  loop-IsRun zero first s = record {
    bounded = omega arith;
    in_order = refl;
    state_after = refl;
    numbered = refl;
    retried = tt;
    final = elim (Outcome-cases (operation s).0) [
      | inl (t, h) ↦ rw h tt
      | inr (e, h) ↦ rw h (inl refl)
    ];
  }
  loop-IsRun (suc left) first s = elim (Outcome-cases (operation s).0) [
    | inl (t, h) ↦
        rw (h, retry_loop)
          (record {
            bounded = omega arith;
            in_order = ap (λ x. x ∷ []) (sym h);
            state_after = refl;
            numbered = refl;
            retried = tt;
            final = tt;
          })
    | inr (e, h) ↦ elim (Bool-cases (retries_on o.should_retry e)) [
      | inl again ↦
          let rest = loop-IsRun left (first + 1) (operation s).1 in
          rw (h, retry_loop, again)
            (record {
              bounded = omega (arith, rest.bounded);
              in_order = ap₂ (λ x xs. x ∷ xs) (sym h) rest.in_order;
              state_after = rest.state_after;
              numbered = ap (λ xs. first ∷ xs) rest.numbered;
              retried = (again, refl, rest.retried);
              final =
                  IsFinal-suc left (retry_loop o operation left (first + 1) (operation s).1).0 _
                    rest.final;
            })
      | inr stop ↦
          rw (h, retry_loop, stop)
            (record {
              bounded = omega arith;
              in_order = ap (λ x. x ∷ []) (sym h);
              state_after = refl;
              numbered = refl;
              retried = tt;
              final = inr stop;
            })
    ]
  ]

  -- `withRetry` comes to an end with at most `maxRetries` retries: the errors of its retries
  -- followed by its outcome are, in order, what the successive calls of the operation give, and
  -- the state is the one after these calls; the retries are numbered from 0, each was for an
  -- error that is to be retried, with the delay of the backoff; and the outcome is a result, or
  -- an error after `maxRetries` retries, or an error that is not to be retried.
  pub with_retry-IsRun : (s : S) → IsRun o.max_retries 0 s (with_retry o operation s)
  unfolding with_retry
  with_retry-IsRun s = loop-IsRun o.max_retries 0 s

-- What the loop sleeps in all.
abbrev pub total_delay : {E : Type 0} → List (Retry E) → ℕ
total_delay [] = 0
total_delay (x ∷ xs) = x.delay_ms + total_delay xs

module _ {E T S : Type 0} (c : RetryConfig) (should_retry : Option (E → Bool))
    (operation : S → Outcome E T × S) where
  abbrev configured : RetryOptions E
  unfolding create_retry_options
  configured = create_retry_options c should_retry none

  total_delay-AllRetried :
      (xs : List (Retry E))
      → AllRetried configured operation xs
      → total_delay xs ≤ length xs * c.max_delay_ms
  unfolding configured exponential_backoff
  total_delay-AllRetried [] h = omega arith
  total_delay-AllRetried (x ∷ xs) (again, delay, h) =
      omega (arith, delay, total_delay-AllRetried xs h)

  -- With options made from a configuration without a backoff of the caller's own, `withRetry`
  -- sleeps in all no longer than `maxRetries` times `maxDelayMs`.
  pub sleeps_bounded :
      (s : S)
      → total_delay (with_retry (create_retry_options c should_retry none) operation s).2
        ≤ c.max_retries * c.max_delay_ms
  unfolding configured
  sleeps_bounded s =
      let made = with_retry-IsRun configured operation s in
      le_trans (total_delay-AllRetried _ made.retried)
        (mul-le-mul_right c.max_delay_ms made.bounded)
