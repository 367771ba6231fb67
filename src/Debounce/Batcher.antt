-- ===== src/Debounce/Batcher.antt =====
-- `createDebouncedBatcher` (src/utils/debounce.ts): its variables, the functions that it returns,
-- and the callbacks of its timers and of the handler's promise.
use personal_knowledge_mcp.Base.{
  Bool, List, Option, [], false, if◌then◌else◌, leb, none, some, true, ℕ, ◌++◌, ◌+◌, ◌∷◌,
}
use personal_knowledge_mcp.Debounce.Config.{DebounceConfig}

-- A timer variable: `null`, a timer that has yet to fire (and from when it may), or one that has
-- fired and whose variable was not set back.
pub data Handle : Type 0 where
  cleared : Handle
  armed : ℕ → Handle
  spent : Handle

pub record Batcher {ℓ} (A : Type ℓ) : Type ℓ where
  pub pending_items : List A
  pub debounce_timer : Handle
  pub max_wait_timer : Handle
  pub first_item_time : Option ℕ
  pub execution_in_progress : Bool

-- What the batcher calls: `onDebounceStart`, and `onExecute` with a batch.
pub data Output {ℓ} (A : Type ℓ) : Type ℓ where
  debounce_started : Output A
  executes : List A → Output A

abbrev pub new_batcher {ℓ} : {A : Type ℓ} → Batcher A
new_batcher = record {
  pending_items = [];
  debounce_timer = cleared;
  max_wait_timer = cleared;
  first_item_time = none;
  execution_in_progress = false;
}

abbrev pub is_cleared : Handle → Bool
is_cleared cleared = true
is_cleared _ = false

abbrev pub is_empty {ℓ} : {A : Type ℓ} → List A → Bool
is_empty [] = true
is_empty (_ ∷ _) = false

module _ {ℓ} {A : Type ℓ} where
  unfoldable pub clear_timers : Batcher A → Batcher A
  clear_timers b = record b { debounce_timer = cleared; max_wait_timer = cleared }

  -- `execute` up to its suspension at the handler's promise; `has_handler` says whether
  -- `onExecute` is given. With nothing to wait for, the `finally` block runs at once.
  unfoldable pub execute : Bool → Batcher A → Batcher A × List (Output A)
  unfolding clear_timers
  execute has_handler b =
      if b.execution_in_progress
      then (b, [])
      else let items = b.pending_items in
        let b1 = record (clear_timers b) { pending_items = []; first_item_time = none } in
        if is_empty items
        then (b1, [])
        else if has_handler
        then (record b1 { execution_in_progress = true }, executes items ∷ [])
        else (b1, [])

  -- The `finally` block of `execute` once the handler's promise is settled.
  unfoldable pub execution_ends : Batcher A → Batcher A × List (Output A)
  execution_ends b = (record b { execution_in_progress = false }, [])

  unfoldable pub start_debounce_timer : ℕ → DebounceConfig → Batcher A → Batcher A
  start_debounce_timer now c b = record b { debounce_timer = armed (now + c.delay_ms) }

  unfoldable pub start_max_wait_timer : ℕ → DebounceConfig → Batcher A → Batcher A
  start_max_wait_timer now c b = elim c.max_wait_ms [
    | none ↦ b
    | some wait ↦
        if is_cleared b.max_wait_timer then record b { max_wait_timer = armed (now + wait) } else b
  ]

  unfoldable pub push : ℕ → DebounceConfig → A → Batcher A → Batcher A × List (Output A)
  unfolding start_debounce_timer start_max_wait_timer
  push now c x b =
      let b1 = record b { pending_items = b.pending_items ++ (x ∷ []) } in
      if is_empty b.pending_items
      then (
        start_debounce_timer now c
            (start_max_wait_timer now c (record b1 { first_item_time = some now })),
        debounce_started ∷ [],
      )
      else (start_debounce_timer now c b1, [])

  unfoldable pub flush : Bool → Batcher A → Batcher A × List (Output A)
  unfolding execute
  flush has_handler b = execute has_handler b

  unfoldable pub cancel : Batcher A → Batcher A × List (Output A)
  unfolding clear_timers
  cancel b = (record (clear_timers b) { pending_items = []; first_item_time = none }, [])

  abbrev pub when_due :
      ℕ → Handle → Batcher A → Batcher A × List (Output A) → Batcher A × List (Output A)
  when_due now (armed at) b fired = if leb at now then fired else (b, [])
  when_due now cleared b fired = (b, [])
  when_due now spent b fired = (b, [])

  unfoldable pub debounce_fires : ℕ → Bool → Batcher A → Batcher A × List (Output A)
  unfolding execute
  debounce_fires now has_handler b =
      when_due now b.debounce_timer b (execute has_handler (record b { debounce_timer = spent }))

  unfoldable pub max_wait_fires : ℕ → Bool → Batcher A → Batcher A × List (Output A)
  unfolding execute
  max_wait_fires now has_handler b =
      when_due now b.max_wait_timer b (execute has_handler (record b { max_wait_timer = spent }))

pub data Event {ℓ} (A : Type ℓ) : Type ℓ where
  pushed : A → Event A
  flushed : Event A
  cancelled : Event A
  debounce_fired : Event A
  max_wait_fired : Event A
  execution_ended : Event A

-- `c` is the validated configuration.
module _ {ℓ} {A : Type ℓ} (c : DebounceConfig) (has_handler : Bool) where
  unfoldable pub step : ℕ → Event A → Batcher A → Batcher A × List (Output A)
  step now (pushed x) b = push now c x b
  step now flushed b = flush has_handler b
  step now cancelled b = cancel b
  step now debounce_fired b = debounce_fires now has_handler b
  step now max_wait_fired b = max_wait_fires now has_handler b
  step now execution_ended b = execution_ends b

  unfoldable pub run : List (ℕ × Event A) → Batcher A → Batcher A × List (Output A)
  run [] b = (b, [])
  run ((now, e) ∷ es) b =
      let (b1, out) = step now e b in let (b2, outs) = run es b1 in (b2, out ++ outs)
