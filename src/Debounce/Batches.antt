-- ===== src/Debounce/Batches.antt =====
-- What a debounced batcher executes (src/utils/debounce.ts).
use personal_knowledge_mcp.Base.{
  List, [], ap, append-nil, append_assoc, arith, refl, sym, true, ℕ, ◌++◌, ◌∙◌, ◌∷◌, ◌≡◌,
}
use personal_knowledge_mcp.Debounce.Batcher.{
  Batcher, Event, Output, cancelled, debounce_fired, debounce_fires, debounce_started, executes,
  execution_ended, execution_ends, flush, flushed, max_wait_fired, max_wait_fires, push, pushed,
  run, step,
}
use personal_knowledge_mcp.Debounce.Config.{DebounceConfig}

module _ {ℓ} {A : Type ℓ} where
  abbrev pub executed_items : List (Output A) → List A
  executed_items [] = []
  executed_items (debounce_started ∷ out) = executed_items out
  executed_items (executes items ∷ out) = items ++ executed_items out

  abbrev pub pushed_items : List (ℕ × Event A) → List A
  pushed_items [] = []
  pushed_items ((now, pushed x) ∷ es) = x ∷ pushed_items es
  pushed_items ((now, flushed) ∷ es) = pushed_items es
  pushed_items ((now, cancelled) ∷ es) = pushed_items es
  pushed_items ((now, debounce_fired) ∷ es) = pushed_items es
  pushed_items ((now, max_wait_fired) ∷ es) = pushed_items es
  pushed_items ((now, execution_ended) ∷ es) = pushed_items es

  abbrev pub NoCancel : List (ℕ × Event A) → Type 0
  NoCancel [] = Unit
  NoCancel ((now, cancelled) ∷ es) = ⊥
  NoCancel ((now, pushed x) ∷ es) = NoCancel es
  NoCancel ((now, flushed) ∷ es) = NoCancel es
  NoCancel ((now, debounce_fired) ∷ es) = NoCancel es
  NoCancel ((now, max_wait_fired) ∷ es) = NoCancel es
  NoCancel ((now, execution_ended) ∷ es) = NoCancel es

  executed_items-append :
      (o p : List (Output A)) → executed_items (o ++ p) ≡ executed_items o ++ executed_items p
  executed_items-append [] p = refl
  executed_items-append (debounce_started ∷ o) p = executed_items-append o p
  executed_items-append (executes items ∷ o) p = simp (executed_items-append o p, append_assoc)

module _ {ℓ} {A : Type ℓ} (c : DebounceConfig) where
  push-pending :
      (now : ℕ) (x : A) (b : Batcher A)
      → let (b1, out) = push now c x b in
        (b1.pending_items ≡ b.pending_items ++ (x ∷ [])) × (executed_items out ≡ [])
  unfolding push
  push-pending now x b = ground arith

  -- A step that takes no item moves pending items to the handler, in order.
  abbrev Moves : Batcher A → Batcher A × List (Output A) → Type ℓ
  Moves b (b1, out) = b.pending_items ≡ executed_items out ++ b1.pending_items

  flush-Moves : (b : Batcher A) → Moves b (flush true b)
  unfolding flush
  flush-Moves b = ground (arith, append-nil b.pending_items, append-nil (b.pending_items ++ []))

  debounce_fires-Moves : (now : ℕ) (b : Batcher A) → Moves b (debounce_fires now true b)
  unfolding debounce_fires
  debounce_fires-Moves now b =
      ground (arith, append-nil b.pending_items, append-nil (b.pending_items ++ []))

  max_wait_fires-Moves : (now : ℕ) (b : Batcher A) → Moves b (max_wait_fires now true b)
  unfolding max_wait_fires
  max_wait_fires-Moves now b =
      ground (arith, append-nil b.pending_items, append-nil (b.pending_items ++ []))

  moved :
      (b : Batcher A) (r : Batcher A × List (Output A)) (later rest : List A)
      (out : List (Output A))
      → Moves b r
      → r.0.pending_items ++ later ≡ executed_items out ++ rest
      → b.pending_items ++ later ≡ executed_items (r.1 ++ out) ++ rest
  moved b (b1, o) later rest out m h = simp (m, executed_items-append o out, append_assoc, h)

  -- With a handler and unless it is cancelled, a batcher hands over what is pushed, in order,
  -- each item once: the items pending at the start of a run and those pushed in it are, in this
  -- order, those executed and those pending at its end.
  pub run_in_order :
      (es : List (ℕ × Event A)) (b : Batcher A)
      → NoCancel es
      → b.pending_items ++ pushed_items es
        ≡ executed_items (run c true es b).1 ++ (run c true es b).0.pending_items
  unfolding run step
  run_in_order [] b k = append-nil b.pending_items
  run_in_order ((now, pushed x) ∷ es) b k =
      let (b1, out) = push now c x b in
      let (p, silent) = push-pending now x b in
      let (b2, outs) = run c true es b1 in
      sym (append_assoc b.pending_items (x ∷ []) (pushed_items es))
      ∙ ap (λ t. t ++ pushed_items es) (sym p)
      ∙ run_in_order es b1 k
      ∙ ap (λ t. t ++ b2.pending_items)
          (sym (executed_items-append out outs ∙ ap (λ t. t ++ executed_items outs) silent))
  run_in_order ((now, flushed) ∷ es) b k =
      moved b (flush true b) _ _ _ (flush-Moves b) (run_in_order es (flush true b).0 k)
  run_in_order ((now, cancelled) ∷ es) b k = absurd k
  run_in_order ((now, debounce_fired) ∷ es) b k =
      moved b (debounce_fires now true b) _ _ _ (debounce_fires-Moves now b)
        (run_in_order es (debounce_fires now true b).0 k)
  run_in_order ((now, max_wait_fired) ∷ es) b k =
      moved b (max_wait_fires now true b) _ _ _ (max_wait_fires-Moves now b)
        (run_in_order es (max_wait_fires now true b).0 k)
  run_in_order ((now, execution_ended) ∷ es) b k =
      moved b (execution_ends b) _ _ _ (unfold execution_ends in refl)
        (run_in_order es (execution_ends b).0 k)
