-- ===== src/UpdateJobs/RateLimits.antt =====
-- The rate limiter against its specification: each repository is new, busy, or cooling down since
-- a time (src/mcp/rate-limiter.ts).
use personal_knowledge_mcp.Base.{
  Bool, Option, arith, false, if_neg, if_pos, if◌then◌else◌, ite, leb, none, refl, some, true, ℕ,
  ◌+◌, ◌-◌, ◌<◌, ◌≡◌, ◌≤◌,
}
use personal_knowledge_mcp.JsMap.Defs.{get}
use personal_knowledge_mcp.JsMap.Laws.{get-set_ne, get-set_self}
use personal_knowledge_mcp.UpdateJobs.RateLimiter.{
  RateLimitCheckResult, RateLimitEntry, RateLimiter, allowed, can_trigger, clear_limits,
  is_in_progress, mark_complete, mark_in_progress, rate_limited, update_running,
}

pub data Phase : Type 0 where
  fresh : Phase
  busy : Phase
  cooling : ℕ → Phase

abbrev pub phase_of_entry : Option RateLimitEntry → Phase
phase_of_entry none = fresh
phase_of_entry (some e) = if e.in_progress then busy else cooling e.last_trigger_time

-- A repository may be triggered unless it is busy or the cooldown since its last update has not
-- passed; in that case the caller is told how long it has to wait.
abbrev pub check_phase : ℕ → ℕ → Phase → RateLimitCheckResult
check_phase cooldown now fresh = allowed
check_phase cooldown now busy = update_running
check_phase cooldown now (cooling since) =
    if leb (since + cooldown) now then allowed else rate_limited (since + cooldown - now)

abbrev pub is_busy : Phase → Bool
is_busy busy = true
is_busy _ = false

-- The entry that `markInProgress` writes.
abbrev marked : Option RateLimitEntry → RateLimitEntry
marked none = record { last_trigger_time = 0; in_progress = true }
marked (some e) = record e { in_progress = true }

module _ {K : Type 0} (dec : Discrete K) where
  unfoldable pub phase : K → RateLimiter K → Phase
  phase r l = phase_of_entry (get dec r l.limits)

  -- `canTrigger` answers by the phase of the repository alone.
  pub can_trigger-check_phase :
      (now : ℕ) (r : K) (l : RateLimiter K)
      → can_trigger dec now r l ≡ check_phase l.cooldown_ms now (phase r l)
  unfolding can_trigger phase
  can_trigger-check_phase now r l = ground arith

  pub phase-mark_in_progress :
      (r q : K) (l : RateLimiter K)
      → phase q (mark_in_progress dec r l) ≡ ite (dec q r) busy (phase q l)
  unfolding phase mark_in_progress
  phase-mark_in_progress r q l = elim (dec q r) [
    | yes e ↦
        rw (if_pos _ e, e)
          (ground (arith, get-set_self dec r (marked (get dec r l.limits)) l.limits))
    | no n ↦
        rw (if_neg _ n)
          (ground (arith, get-set_ne dec r q (marked (get dec r l.limits)) l.limits n))
  ]

  pub phase-mark_complete :
      (now : ℕ) (r q : K) (l : RateLimiter K)
      → phase q (mark_complete dec now r l) ≡ ite (dec q r) (cooling now) (phase q l)
  unfolding phase mark_complete
  phase-mark_complete now r q l = elim (dec q r) [
    | yes e ↦ rw (if_pos _ e, e) (rw (get-set_self dec r _ l.limits) refl)
    | no n ↦ rw (if_neg _ n) (rw (get-set_ne dec r q _ l.limits n) refl)
  ]

  -- The limiter implements a map from repositories to phases: `markInProgress` makes its
  -- repository busy, `markComplete` starts its cooldown, each leaves every other repository as it
  -- was, `clear` makes every repository new, and `isInProgress` tells the busy ones.
  pub limiter-refines :
      (now : ℕ) (r q : K) (l : RateLimiter K)
      → (phase q (mark_in_progress dec r l) ≡ ite (dec q r) busy (phase q l))
        × (phase q (mark_complete dec now r l) ≡ ite (dec q r) (cooling now) (phase q l))
        × (phase q (clear_limits dec l) ≡ fresh)
        × (is_in_progress dec q l ≡ is_busy (phase q l))
  unfolding phase clear_limits is_in_progress get
  limiter-refines now r q l =
      (phase-mark_in_progress r q l, phase-mark_complete now r q l, refl, ground arith)

  -- The wait that a refused caller is told is exact: it is positive, and if nothing is recorded
  -- in between, the trigger is allowed from the end of the wait on and refused, with what is left
  -- of the wait, at any earlier time.
  pub retry_after_exact :
      (now later ms : ℕ) (r : K) (l : RateLimiter K)
      → can_trigger dec now r l ≡ rate_limited ms
      → now ≤ later
      → (0 < ms)
        × (can_trigger dec later r l
            ≡ (if leb (now + ms) later then allowed else rate_limited (now + ms - later)))
  unfolding can_trigger
  retry_after_exact now later ms r l h le = ground arith

  pub progress-mark_in_progress :
      (r q : K) (l : RateLimiter K)
      → is_in_progress dec q (mark_in_progress dec r l)
        ≡ ite (dec q r) true (is_in_progress dec q l)
  unfolding is_in_progress phase
  progress-mark_in_progress r q l = ground (
    arith,
    phase-mark_in_progress r q l,
    (limiter-refines 0 r q l).3,
    (limiter-refines 0 r q (mark_in_progress dec r l)).3,
  )

  pub progress-mark_complete :
      (now : ℕ) (r q : K) (l : RateLimiter K)
      → is_in_progress dec q (mark_complete dec now r l)
        ≡ ite (dec q r) false (is_in_progress dec q l)
  unfolding is_in_progress phase
  progress-mark_complete now r q l = ground (
    arith,
    phase-mark_complete now r q l,
    (limiter-refines 0 r q l).3,
    (limiter-refines 0 r q (mark_complete dec now r l)).3,
  )

  pub allowed_idle :
      (now : ℕ) (r : K) (l : RateLimiter K)
      → can_trigger dec now r l ≡ allowed
      → is_in_progress dec r l ≡ false
  unfolding can_trigger is_in_progress
  allowed_idle now r l h = ground arith

  -- After `markComplete` the trigger is allowed exactly when the cooldown has passed.
  pub can_trigger-mark_complete :
      (now later : ℕ) (r : K) (l : RateLimiter K)
      → can_trigger dec later r (mark_complete dec now r l) ≡ (
          if leb (now + l.cooldown_ms) later
          then allowed
          else rate_limited (now + l.cooldown_ms - later))
  unfolding can_trigger mark_complete
  can_trigger-mark_complete now later r l = rw (get-set_self dec r _ l.limits) (ground arith)
