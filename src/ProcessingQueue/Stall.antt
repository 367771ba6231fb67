-- ===== src/ProcessingQueue/Stall.antt =====
-- A batch that waits for its retry while another timer fires (src/services/processing-queue.ts):
-- `onTimerFired` clears the retry timer with the others.
use personal_knowledge_mcp.Base.{
  List, Option, [], arith, none, refl, some, suc, true, ℕ, ◌++◌, ◌+◌, ◌∷◌, ◌≡◌, ◌≤◌,
}
use personal_knowledge_mcp.ProcessingQueue.Config.{Config}
use personal_knowledge_mcp.ProcessingQueue.Events.{
  Event, debounce_fired, debounce_fires, enqueued, force_stop, force_stopped, get_metrics,
  max_wait_fired, max_wait_fires, metrics_read, processor_rejected, processor_rejects,
  processor_resolved, processor_resolves, retry_fired, retry_fires, run, shut_down, shutdown,
  shutdown_timer_fired, shutdown_timer_fires, step,
}
use personal_knowledge_mcp.ProcessingQueue.Invariant.{is_live}
use personal_knowledge_mcp.ProcessingQueue.Machine.{enqueue}
use personal_knowledge_mcp.ProcessingQueue.State.{
  Flight, Output, Queue, accepted, delaying, handed, refused, shutdown_rejected, shutdown_resolved,
}

module _ {ℓ} {A : Type ℓ} where
  abbrev pub IsDelayed : Option (Flight A) → Type 0
  IsDelayed none = ⊥
  IsDelayed (some f) = f.stage ≡ delaying

  -- A batch waits for a retry that no timer will start.
  abbrev pub IsStuck : Queue A → Type 0
  IsStuck q = (q.is_processing ≡ true) × (q.retry_timer ≡ none) × IsDelayed q.flight

  abbrev pub count_handed : List (Output A) → ℕ
  count_handed [] = 0
  count_handed (handed batch n ∷ out) = suc (count_handed out)
  count_handed (accepted x ∷ out) = count_handed out
  count_handed (refused e ∷ out) = count_handed out
  count_handed (shutdown_resolved ∷ out) = count_handed out
  count_handed (shutdown_rejected n t ∷ out) = count_handed out

  count_handed-append :
      (o p : List (Output A)) → count_handed (o ++ p) ≡ count_handed o + count_handed p
  count_handed-append [] p = omega arith
  count_handed-append (handed b n ∷ o) p = omega (arith, count_handed-append o p)
  count_handed-append (accepted x ∷ o) p = count_handed-append o p
  count_handed-append (refused e ∷ o) p = count_handed-append o p
  count_handed-append (shutdown_resolved ∷ o) p = count_handed-append o p
  count_handed-append (shutdown_rejected n t ∷ o) p = count_handed-append o p

module _ {ℓ} {A : Type ℓ} (c : Config) where
  abbrev StaysStuck : Queue A × List (Output A) → Type 0
  StaysStuck (q, out) = IsStuck q × (count_handed out ≡ 0)

  step-IsStuck : (now : ℕ) (e : Event A) (q : Queue A) → IsStuck q → StaysStuck (step c now e q)
  unfolding step
  step-IsStuck now (enqueued x) q h = unfold enqueue in ground arith
  step-IsStuck now shut_down q h = unfold shutdown in ground arith
  step-IsStuck now force_stopped q h = unfold force_stop in ground arith
  step-IsStuck now debounce_fired q h = unfold debounce_fires in ground arith
  step-IsStuck now max_wait_fired q h = unfold max_wait_fires in ground arith
  step-IsStuck now retry_fired q h = unfold retry_fires in ground arith
  step-IsStuck now shutdown_timer_fired q h = unfold shutdown_timer_fires in ground arith
  step-IsStuck now (processor_resolved r) q h = unfold processor_resolves in ground arith
  step-IsStuck now processor_rejected q h = unfold processor_rejects in ground arith
  step-IsStuck now metrics_read q h = unfold get_metrics in ground arith

  run-IsStuck : (es : List (ℕ × Event A)) (q : Queue A) → IsStuck q → StaysStuck (run c es q)
  unfolding run
  run-IsStuck [] q h = (h, refl)
  run-IsStuck ((now, e) ∷ es) q h =
      let (q1, out) = step c now e q in
      let (k, none_now) = step-IsStuck now e q h in
      let (k2, none_later) = run-IsStuck es q1 k in
      (k2, omega (arith, count_handed-append out (run c es q1).1))

  debounce-IsStuck :
      (now at : ℕ) (q : Queue A)
      → q.is_processing ≡ true
      → IsDelayed q.flight
      → q.debounce_timer ≡ some at
      → at ≤ now
      → IsStuck (step c now debounce_fired q).0
  unfolding step debounce_fires
  debounce-IsStuck now at q p d t le = ground arith

  -- If the debounce timer fires while a batch waits for its retry, the queue hands nothing to the
  -- processor ever again, whatever happens later, and still counts as processing.
  pub debounce_stalls :
      (now at : ℕ) (q : Queue A) (es : List (ℕ × Event A))
      → q.is_processing ≡ true
      → IsDelayed q.flight
      → q.debounce_timer ≡ some at
      → at ≤ now
      → (count_handed (run c es (step c now debounce_fired q).0).1 ≡ 0)
        × ((run c es (step c now debounce_fired q).0).0.is_processing ≡ true)
  debounce_stalls now at q es p d t le =
      let (stuck, silent) =
        run-IsStuck es (step c now debounce_fired q).0 (debounce-IsStuck now at q p d t le) in
      (silent, stuck.0)

  -- If `shutdown` of an idle or processing queue is called while a batch waits for its retry, the
  -- queue hands nothing to the processor ever again, whatever happens later, and still counts as
  -- processing.
  pub shutdown_stalls :
      (now : ℕ) (q : Queue A) (es : List (ℕ × Event A))
      → q.is_processing ≡ true
      → IsDelayed q.flight
      → is_live q.state ≡ true
      → (count_handed (run c es (step c now shut_down q).0).1 ≡ 0)
        × ((run c es (step c now shut_down q).0).0.is_processing ≡ true)
  shutdown_stalls now q es p d l =
      let (stuck, silent) =
        run-IsStuck es (step c now shut_down q).0 (unfold step shutdown in ground arith) in
      (silent, stuck.0)
