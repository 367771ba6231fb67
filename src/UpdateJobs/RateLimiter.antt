-- ===== src/UpdateJobs/RateLimiter.antt =====
-- `MCPRateLimiter` (src/mcp/rate-limiter.ts), over repository names with a decidable equality.
use personal_knowledge_mcp.Base.{
  Bool, List, Option, [], false, if◌then◌else◌, ltb, none, or_default, some, true, ℕ, ◌+◌, ◌-◌,
}
use personal_knowledge_mcp.JsMap.Defs.{get, set}

pub record RateLimitEntry : Type 0 where
  pub last_trigger_time : ℕ
  pub in_progress : Bool

-- `RateLimitCheckResult`: allowed, or the reason why not, with `retryAfterMs` where it is given.
pub data RateLimitCheckResult : Type 0 where
  allowed : RateLimitCheckResult
  rate_limited : ℕ → RateLimitCheckResult
  update_running : RateLimitCheckResult

pub record RateLimiter (K : Type 0) : Type 0 where
  pub limits : List (K × RateLimitEntry)
  pub cooldown_ms : ℕ

abbrev pub default_cooldown_ms : ℕ
default_cooldown_ms = 2000

-- `config.cooldownMs ?? DEFAULT_COOLDOWN_MS`
unfoldable pub new_limiter : {K : Type 0} → Option ℕ → RateLimiter K
new_limiter cooldown = record { limits = []; cooldown_ms = or_default cooldown default_cooldown_ms }

-- `getSharedRateLimiter` on the parsed environment variable (`none`: not set or not a number).
unfoldable pub shared_limiter : {K : Type 0} → Option ℕ → RateLimiter K
unfolding new_limiter
shared_limiter none = new_limiter none
shared_limiter (some ms) = if ltb 0 ms then new_limiter (some ms) else new_limiter none

-- What `canTrigger` answers from an entry. `remaining` is `cooldownMs - (now - lastTriggerTime)`.
unfoldable pub check_entry : ℕ → ℕ → Option RateLimitEntry → RateLimitCheckResult
check_entry cooldown now none = allowed
check_entry cooldown now (some entry) =
    let remaining = cooldown + entry.last_trigger_time - now in
    if entry.in_progress
    then update_running
    else if ltb 0 remaining
    then rate_limited remaining
    else allowed

abbrev pub progress_of : Option RateLimitEntry → Bool
progress_of none = false
progress_of (some entry) = entry.in_progress

module _ {K : Type 0} (dec : Discrete K) where
  unfoldable pub can_trigger : ℕ → K → RateLimiter K → RateLimitCheckResult
  unfolding check_entry
  can_trigger now r l = check_entry l.cooldown_ms now (get dec r l.limits)

  unfoldable pub mark_in_progress : K → RateLimiter K → RateLimiter K
  mark_in_progress r l = elim (get dec r l.limits) [
    | some entry ↦ record l { limits = set dec r (record entry { in_progress = true }) l.limits }
    | none ↦ record l {
      limits = set dec r (record { last_trigger_time = 0; in_progress = true }) l.limits;
    }
  ]

  unfoldable pub mark_complete : ℕ → K → RateLimiter K → RateLimiter K
  mark_complete now r l = record l {
    limits = set dec r (record { last_trigger_time = now; in_progress = false }) l.limits;
  }

  unfoldable pub is_in_progress : K → RateLimiter K → Bool
  is_in_progress r l = progress_of (get dec r l.limits)

  unfoldable pub clear_limits : RateLimiter K → RateLimiter K
  clear_limits l = record l { limits = [] }
