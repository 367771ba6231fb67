-- ===== src/Debounce/Config.antt =====
-- The configuration of the debounced batcher and its validation (src/utils/debounce.ts), over
-- natural numbers of milliseconds.
use personal_knowledge_mcp.Base.{
  Bool, Option, arith, if◌then◌else◌, leb, ltb, max, min, none, some, subst, true, ℕ, ◌&&◌, ◌↔◌,
  ◌≡◌,
}

abbrev pub min_debounce_ms : ℕ
min_debounce_ms = 100

abbrev pub max_debounce_ms : ℕ
max_debounce_ms = 300000

pub record DebounceConfig : Type 0 where
  pub delay_ms : ℕ
  pub max_wait_ms : Option ℕ

abbrev pub default_debounce_config : DebounceConfig
default_debounce_config = record { delay_ms = 2000; max_wait_ms = none }

-- `Math.max(MIN_DEBOUNCE_MS, Math.min(MAX_DEBOUNCE_MS, x))`
abbrev pub clamp : ℕ → ℕ
clamp x = max min_debounce_ms (min max_debounce_ms x)

-- The maximal wait, clamped and then raised to the delay.
unfoldable pub validate_wait : ℕ → Option ℕ → Option ℕ
validate_wait delay none = none
validate_wait delay (some wait) = some (if ltb (clamp wait) delay then delay else clamp wait)

unfoldable pub validate : DebounceConfig → DebounceConfig
unfolding validate_wait
validate c = record {
  delay_ms = clamp c.delay_ms;
  max_wait_ms = validate_wait (clamp c.delay_ms) c.max_wait_ms;
}

-- Both times lie between the minimum and the maximum, and the maximal wait, if there is one, is
-- not shorter than the delay.
abbrev pub wait_fits : ℕ → Option ℕ → Bool
wait_fits delay none = true
wait_fits delay (some wait) = leb delay wait && leb wait max_debounce_ms

abbrev pub is_valid : DebounceConfig → Bool
is_valid c =
    leb min_debounce_ms c.delay_ms
    && leb c.delay_ms max_debounce_ms
    && wait_fits c.delay_ms c.max_wait_ms

validate_valid : (c : DebounceConfig) → is_valid (validate c) ≡ true
unfolding validate
validate_valid c = ground arith

valid_unchanged : (c : DebounceConfig) → is_valid c ≡ true → validate c ≡ c
unfolding validate
valid_unchanged c h = ground arith

-- Whatever the configuration, the validated one is valid; and the validation leaves a
-- configuration as it is exactly if it is valid.
pub validate_exact :
    (c : DebounceConfig) → (is_valid (validate c) ≡ true) × ((is_valid c ≡ true) ↔ (validate c ≡ c))
validate_exact c = (
  validate_valid c,
  (valid_unchanged c, λ h. subst (λ x. is_valid x ≡ true) h (validate_valid c)),
)
