-- ===== src/Debounce/Stranded.antt =====
-- The debounce timer against an execution in progress (src/utils/debounce.ts).
use personal_knowledge_mcp.Base.{
  Bool, List, [], arith, false, if◌then◌else◌, none, refl, true, ℕ, ◌∷◌, ◌≡◌, ◌≤◌,
}
use personal_knowledge_mcp.Debounce.Batcher.{
  Batcher, Event, Handle, armed, cancelled, cleared, debounce_fired, debounce_fires, executes,
  execution_ended, execution_ends, flush, flushed, is_empty, max_wait_fired, max_wait_fires, pushed,
  run, spent, step,
}
use personal_knowledge_mcp.Debounce.Config.{DebounceConfig}

abbrev pub is_armed : Handle → Bool
is_armed (armed at) = true
is_armed _ = false

module _ {ℓ} {A : Type ℓ} where
  -- Nothing is pushed, flushed or cancelled: only timers fire and the handler finishes.
  abbrev pub IsQuiet : List (ℕ × Event A) → Type 0
  IsQuiet [] = Unit
  IsQuiet ((now, debounce_fired) ∷ es) = IsQuiet es
  IsQuiet ((now, max_wait_fired) ∷ es) = IsQuiet es
  IsQuiet ((now, execution_ended) ∷ es) = IsQuiet es
  IsQuiet ((now, pushed x) ∷ es) = ⊥
  IsQuiet ((now, flushed) ∷ es) = ⊥
  IsQuiet ((now, cancelled) ∷ es) = ⊥

  abbrev IsSilent : Batcher A → Type 0
  IsSilent b = (is_armed b.debounce_timer ≡ false) × (is_armed b.max_wait_timer ≡ false)

module _ {ℓ} {A : Type ℓ} (c : DebounceConfig) (has_handler : Bool) where
  silent_debounce :
      (now : ℕ) (b : Batcher A) → IsSilent b → debounce_fires now has_handler b ≡ (b, [])
  unfolding debounce_fires
  silent_debounce now b h = ground arith

  silent_max_wait :
      (now : ℕ) (b : Batcher A) → IsSilent b → max_wait_fires now has_handler b ≡ (b, [])
  unfolding max_wait_fires
  silent_max_wait now b h = ground arith

  silent_run :
      (es : List (ℕ × Event A)) (b : Batcher A)
      → IsSilent b
      → IsQuiet es
      → ((run c has_handler es b).1 ≡ [])
        × ((run c has_handler es b).0.pending_items ≡ b.pending_items)
  unfolding run step execution_ends
  silent_run [] b h k = (refl, refl)
  silent_run ((now, debounce_fired) ∷ es) b h k = rw (silent_debounce now b h) (silent_run es b h k)
  silent_run ((now, max_wait_fired) ∷ es) b h k = rw (silent_max_wait now b h) (silent_run es b h k)
  silent_run ((now, execution_ended) ∷ es) b h k =
      silent_run es (record b { execution_in_progress = false }) h k
  silent_run ((now, pushed x) ∷ es) b h k = absurd k
  silent_run ((now, flushed) ∷ es) b h k = absurd k
  silent_run ((now, cancelled) ∷ es) b h k = absurd k

  fired_while_busy :
      (now at : ℕ) (b : Batcher A)
      → b.execution_in_progress ≡ true
      → b.debounce_timer ≡ armed at
      → at ≤ now
      → debounce_fires now has_handler b ≡ (record b { debounce_timer = spent }, [])
  unfolding debounce_fires
  fired_while_busy now at b busy t due = ground arith

  -- If the debounce timer fires while an execution is in progress and the max-wait timer is not
  -- running, the items that wait are stranded: until somebody pushes, flushes or cancels, nothing
  -- is executed, also after the execution has ended, and they stay pending.
  pub fired_while_busy_strands :
      (now at : ℕ) (es : List (ℕ × Event A)) (b : Batcher A)
      → b.execution_in_progress ≡ true
      → b.debounce_timer ≡ armed at
      → at ≤ now
      → is_armed b.max_wait_timer ≡ false
      → IsQuiet es
      → let (b1, out) = run c has_handler ((now, debounce_fired) ∷ es) b in
        (out ≡ []) × (b1.pending_items ≡ b.pending_items)
  unfolding run step execution_ends
  fired_while_busy_strands now at es b busy t due m k =
      rw (fired_while_busy now at b busy t due)
        (silent_run es (record b { debounce_timer = spent }) (refl, m) k)

  -- While no execution is in progress and items are pending, the debounce timer that fires in
  -- time and a `flush` do the same: with a handler, all pending items go to it at once, in order;
  -- and in any case both timers and the pending items are cleared.
  pub idle_executes :
      (now at : ℕ) (b : Batcher A)
      → b.execution_in_progress ≡ false
      → is_empty b.pending_items ≡ false
      → b.debounce_timer ≡ armed at
      → at ≤ now
      → let after = record b {
        pending_items = [];
        debounce_timer = cleared;
        max_wait_timer = cleared;
        first_item_time = none;
        execution_in_progress = has_handler;
      } in
        let out = if has_handler then executes b.pending_items ∷ [] else [] in
        (debounce_fires now has_handler b ≡ (after, out)) × (flush has_handler b ≡ (after, out))
  unfolding debounce_fires flush
  idle_executes now at b idle some_items t due = ground arith

  -- `flush` during an execution does nothing: what is pending is neither executed nor moved.
  pub flush_while_busy :
      (b : Batcher A) → b.execution_in_progress ≡ true → flush has_handler b ≡ (b, [])
  unfolding flush
  flush_while_busy b busy = ground arith
