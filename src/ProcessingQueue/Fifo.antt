-- ===== src/ProcessingQueue/Fifo.antt =====
-- The processing queue as a first-in first-out queue (src/services/processing-queue.ts).
use personal_knowledge_mcp.Base.{
  Bool, List, [], ap, append-nil, append_assoc, arith, drop, false, if◌then◌else◌, refl, sym, take,
  take-append-drop, true, ℕ, ◌++◌, ◌==◌, ◌∎, ◌∷◌, ◌≡◌, ◌≡⟨◌⟩◌,
}
use personal_knowledge_mcp.ProcessingQueue.Config.{Config, IsValidConfig}
use personal_knowledge_mcp.ProcessingQueue.Events.{
  Event, debounce_fired, debounce_fires, enqueued, force_stopped, get_metrics, max_wait_fired,
  max_wait_fires, metrics_read, processor_rejected, processor_rejects, processor_resolved,
  processor_resolves, retry_fired, retry_fires, run, shut_down, shutdown, shutdown_timer_fired,
  shutdown_timer_fires, step,
}
use personal_knowledge_mcp.ProcessingQueue.Invariant.{IsValid, step-IsValid}
use personal_knowledge_mcp.ProcessingQueue.Machine.{enqueue}
use personal_knowledge_mcp.ProcessingQueue.State.{
  BatchProcessorResult, Output, Queue, accepted, handed, refused, shutdown_rejected,
  shutdown_resolved,
}

module _ {ℓ} {A : Type ℓ} where
  -- The items that a run accepted.
  abbrev pub accepted_items : List (Output A) → List A
  accepted_items [] = []
  accepted_items (accepted x ∷ out) = x ∷ accepted_items out
  accepted_items (refused e ∷ out) = accepted_items out
  accepted_items (handed batch n ∷ out) = accepted_items out
  accepted_items (shutdown_resolved ∷ out) = accepted_items out
  accepted_items (shutdown_rejected n t ∷ out) = accepted_items out

  -- The items that a run handed to the processor for the first time.
  abbrev pub handed_items : List (Output A) → List A
  handed_items [] = []
  handed_items (accepted x ∷ out) = handed_items out
  handed_items (refused e ∷ out) = handed_items out
  handed_items (handed batch n ∷ out) = (if n == 1 then batch else []) ++ handed_items out
  handed_items (shutdown_resolved ∷ out) = handed_items out
  handed_items (shutdown_rejected n t ∷ out) = handed_items out

  abbrev pub is_force_stop : Event A → Bool
  is_force_stop force_stopped = true
  is_force_stop _ = false

  -- No event of the run discards items.
  abbrev pub KeepsItems : List (ℕ × Event A) → Type 0
  KeepsItems [] = Unit
  KeepsItems ((now, e) ∷ es) = (is_force_stop e ≡ false) × KeepsItems es

  pub accepted_items-append :
      (o p : List (Output A)) → accepted_items (o ++ p) ≡ accepted_items o ++ accepted_items p
  accepted_items-append [] p = refl
  accepted_items-append (accepted x ∷ o) p = rw (accepted_items-append o p)
  accepted_items-append (refused e ∷ o) p = accepted_items-append o p
  accepted_items-append (handed b n ∷ o) p = accepted_items-append o p
  accepted_items-append (shutdown_resolved ∷ o) p = accepted_items-append o p
  accepted_items-append (shutdown_rejected n t ∷ o) p = accepted_items-append o p

  pub handed_items-append :
      (o p : List (Output A)) → handed_items (o ++ p) ≡ handed_items o ++ handed_items p
  handed_items-append [] p = refl
  handed_items-append (accepted x ∷ o) p = handed_items-append o p
  handed_items-append (refused e ∷ o) p = handed_items-append o p
  handed_items-append (handed b n ∷ o) p = simp (handed_items-append o p, append_assoc)
  handed_items-append (shutdown_resolved ∷ o) p = handed_items-append o p
  handed_items-append (shutdown_rejected n t ∷ o) p = handed_items-append o p

  -- What a step moves: queue before and items accepted, against items handed and queue after.
  abbrev pub Moves : Queue A → Queue A × List (Output A) → Type ℓ
  Moves q (q1, out) = q.queue ++ accepted_items out ≡ handed_items out ++ q1.queue

module _ {ℓ} {A : Type ℓ} (c : Config) (v : IsValidConfig c) (now : ℕ) where
  -- A batch and what stays behind make up the queue.
  batch_facts :
      (q : Queue A)
      → (q.queue ++ [] ≡ q.queue)
        × (take c.max_batch_size q.queue ++ [] ≡ take c.max_batch_size q.queue)
        × (take c.max_batch_size q.queue ++ drop c.max_batch_size q.queue ≡ q.queue)
  batch_facts q = (
    append-nil q.queue,
    append-nil (take c.max_batch_size q.queue),
    take-append-drop c.max_batch_size q.queue,
  )

  enqueue-Moves : (x : A) (q : Queue A) → Moves q (enqueue c now x q)
  unfolding enqueue
  enqueue-Moves x q = ground (arith, append-nil q.queue)

  shutdown-Moves : (q : Queue A) → Moves q (shutdown c now q)
  unfolding shutdown
  shutdown-Moves q = ground (arith, batch_facts q)

  debounce_fires-Moves : (q : Queue A) → Moves q (debounce_fires c now q)
  unfolding debounce_fires
  debounce_fires-Moves q = ground (arith, batch_facts q)

  max_wait_fires-Moves : (q : Queue A) → Moves q (max_wait_fires c now q)
  unfolding max_wait_fires
  max_wait_fires-Moves q = ground (arith, batch_facts q)

  retry_fires-Moves : (q : Queue A) → IsValid c q → Moves q (retry_fires c now q)
  unfolding retry_fires
  retry_fires-Moves q h = ground (arith, append-nil q.queue)

  processor_resolves-Moves :
      (r : BatchProcessorResult) (q : Queue A) → Moves q (processor_resolves c now r q)
  unfolding processor_resolves
  processor_resolves-Moves r q = ground (arith, batch_facts q)

  processor_rejects-Moves : (q : Queue A) → Moves q (processor_rejects c now q)
  unfolding processor_rejects
  processor_rejects-Moves q = ground (arith, batch_facts q)

  step-Moves :
      (e : Event A) (q : Queue A) → IsValid c q → is_force_stop e ≡ false → Moves q (step c now e q)
  unfolding step
  step-Moves (enqueued x) q h k = enqueue-Moves x q
  step-Moves shut_down q h k = shutdown-Moves q
  step-Moves force_stopped q h k = cc
  step-Moves debounce_fired q h k = debounce_fires-Moves q
  step-Moves max_wait_fired q h k = max_wait_fires-Moves q
  step-Moves retry_fired q h k = retry_fires-Moves q h
  step-Moves shutdown_timer_fired q h k =
      unfold shutdown_timer_fires in ground (arith, append-nil q.queue)
  step-Moves (processor_resolved r) q h k = processor_resolves-Moves r q
  step-Moves processor_rejected q h k = processor_rejects-Moves q
  step-Moves metrics_read q h k = unfold get_metrics in append-nil q.queue

-- With a valid configuration, a run of a queue in which the invariant holds, in which the queue
-- is not force-stopped, loses no item, makes none up and keeps the order: the items waiting at
-- its start followed by those it accepts are, in this order, those that it hands to the processor
-- for the first time followed by those waiting at its end. This includes runs in which the
-- shutdown's timer fires: the waiting items then stay in the stopped queue.
pub run-fifo {ℓ} :
    {A : Type ℓ} (c : Config) (v : IsValidConfig c) (es : List (ℕ × Event A)) (q : Queue A)
    → IsValid c q
    → KeepsItems es
    → q.queue ++ accepted_items (run c es q).1 ≡ handed_items (run c es q).1 ++ (run c es q).0.queue
unfolding run
run-fifo c v [] q h k = append-nil q.queue
run-fifo c v ((now, e) ∷ es) q h (k, ks) =
    let (q1, out) = step c now e q in
    let (q2, outs) = run c es q1 in
    q.queue ++ accepted_items (out ++ outs)
    ≡⟨ rw accepted_items-append
        (sym (append_assoc q.queue (accepted_items out) (accepted_items outs))) ⟩
      (q.queue ++ accepted_items out) ++ accepted_items outs
    ≡⟨ rw (step-Moves c v now e q h k)
        (append_assoc (handed_items out) q1.queue (accepted_items outs)) ⟩
      handed_items out ++ (q1.queue ++ accepted_items outs)
    ≡⟨ ap (λ t. handed_items out ++ t) (run-fifo c v es q1 (step-IsValid c v now e h) ks) ⟩
      handed_items out ++ (handed_items outs ++ q2.queue)
    ≡⟨ rw handed_items-append (sym (append_assoc (handed_items out) (handed_items outs) q2.queue)) ⟩
      handed_items (out ++ outs) ++ q2.queue ∎
