-- ===== src/ProcessingQueue/Drain.antt =====
-- Graceful shutdown while the processor answers (src/services/processing-queue.ts).
use personal_knowledge_mcp.Base.{
  List, Option, [], arith, drop, false, length, length-drop, none, some, suc, true, ℕ, ◌*◌, ◌++◌,
  ◌+◌, ◌-◌, ◌<◌, ◌∷◌, ◌≡◌, ◌≤◌, ◌⊎◌,
}
use personal_knowledge_mcp.ProcessingQueue.Config.{Config}
use personal_knowledge_mcp.ProcessingQueue.Events.{
  Event, processor_resolved, processor_resolves, run, shut_down, shutdown, step,
}
use personal_knowledge_mcp.ProcessingQueue.Invariant.{IsValid, is_live}
use personal_knowledge_mcp.ProcessingQueue.Machine.{is_empty}
use personal_knowledge_mcp.ProcessingQueue.State.{
  BatchProcessorResult, Flight, Output, Queue, accepted, awaiting, draining, handed, refused,
  shutdown_rejected, shutdown_resolved, stopped,
}

module _ {ℓ} {A : Type ℓ} where
  abbrev pub IsAwaited : Option (Flight A) → Type 0
  IsAwaited none = ⊥
  IsAwaited (some f) = f.stage ≡ awaiting

  -- The promise of `shutdown` resolves this many times in a run.
  abbrev pub count_resolved : List (Output A) → ℕ
  count_resolved [] = 0
  count_resolved (shutdown_resolved ∷ out) = suc (count_resolved out)
  count_resolved (handed batch n ∷ out) = count_resolved out
  count_resolved (accepted x ∷ out) = count_resolved out
  count_resolved (refused e ∷ out) = count_resolved out
  count_resolved (shutdown_rejected n t ∷ out) = count_resolved out

  count_resolved-append :
      (o p : List (Output A)) → count_resolved (o ++ p) ≡ count_resolved o + count_resolved p
  count_resolved-append [] p = omega arith
  count_resolved-append (shutdown_resolved ∷ o) p = omega (arith, count_resolved-append o p)
  count_resolved-append (handed b n ∷ o) p = count_resolved-append o p
  count_resolved-append (accepted x ∷ o) p = count_resolved-append o p
  count_resolved-append (refused e ∷ o) p = count_resolved-append o p
  count_resolved-append (shutdown_rejected n t ∷ o) p = count_resolved-append o p

  -- The processor answers batch after batch.
  abbrev pub answers : List (ℕ × BatchProcessorResult) → List (ℕ × Event A)
  answers [] = []
  answers ((now, r) ∷ rs) = (now, processor_resolved r) ∷ answers rs

module _ {ℓ} {A : Type ℓ} (c : Config) where
  -- A draining queue with a batch at the processor.
  abbrev pub IsDraining : Queue A → Type 0
  IsDraining q = (q.state ≡ draining) × (q.drain_resolve ≡ true) × IsAwaited q.flight

  drain_more :
      (now : ℕ) (r : BatchProcessorResult) (q : Queue A)
      → IsDraining q
      → 0 < length q.queue
      → let (q1, out) = step c now (processor_resolved r) q in
        IsDraining q1 × (q1.queue ≡ drop c.max_batch_size q.queue) × (count_resolved out ≡ 0)
  unfolding step processor_resolves
  drain_more now r q h n = ground arith

  drain_last :
      (now : ℕ) (r : BatchProcessorResult) (q : Queue A)
      → IsDraining q
      → length q.queue ≡ 0
      → let (q1, out) = step c now (processor_resolved r) q in
        (q1.state ≡ stopped)
        × (q1.queue ≡ [])
        × (q1.is_processing ≡ false)
        × (count_resolved out ≡ 1)
  unfolding step processor_resolves
  drain_last now r q h n = ground arith

  -- From a draining queue with a batch at the processor, when the processor answers as many
  -- batches as there are (the one it has, and one for each full or started batch still waiting),
  -- the queue ends stopped and empty with nothing in process, and the promise of `shutdown` has
  -- resolved exactly once.
  pub drain_completes :
      (r : ℕ × BatchProcessorResult) (rs : List (ℕ × BatchProcessorResult)) (q : Queue A)
      → IsDraining q
      → length q.queue ≤ length rs * c.max_batch_size
      → length rs * c.max_batch_size < length q.queue + c.max_batch_size
      → let (q1, out) = run c (answers (r ∷ rs)) q in
        (q1.state ≡ stopped)
        × (q1.queue ≡ [])
        × (q1.is_processing ≡ false)
        × (count_resolved out ≡ 1)
  unfolding run
  drain_completes (now, r) [] q h le lt =
      let (s, e, p, k) = drain_last now r q h (omega arith) in
      (s, e, p, omega (arith, count_resolved-append (step c now (processor_resolved r) q).1 []))
  drain_completes (now, r) (r2 ∷ rs) q h le lt =
      let q1 = (step c now (processor_resolved r) q).0 in
      let out = (step c now (processor_resolved r) q).1 in
      let (d, e, k) = drain_more now r q h (grind arith) in
      let left : length q1.queue ≡ length q.queue - c.max_batch_size =
        rw e (length-drop c.max_batch_size q.queue) in
      let (s, e2, p, k2) = drain_completes r2 rs q1 d (grind arith) (grind arith) in
      (s, e2, p, omega (arith, count_resolved-append out (run c (answers (r2 ∷ rs)) q1).1))

  -- `shutdown` of a queue in which the invariant holds, which is idle or processing and has items
  -- or a batch at the processor, and of which no batch waits for its retry, leaves it draining
  -- with a batch at the processor and the promise's resolver stored.
  pub shutdown-IsDraining :
      (now : ℕ) (q : Queue A)
      → IsValid c q
      → is_live q.state ≡ true
      → is_empty q.queue ≡ false ⊎ IsAwaited q.flight
      → (q.is_processing ≡ true → IsAwaited q.flight)
      → IsDraining (step c now shut_down q).0
  unfolding step shutdown
  shutdown-IsDraining now q v l w a = ground arith
