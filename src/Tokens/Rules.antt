-- ===== src/Tokens/Rules.antt =====
-- The rules for tokens, said once more without the code's tests and updates
-- (src/auth/token-service.ts, src/auth/validation.ts).
use personal_knowledge_mcp.Base.{
  Bool, Option, ap, arith, dec_lt, false, if◌then◌else◌, ite, ltb, none, not, or_default, refl,
  some, suc, true, ℕ, ◌&&◌, ◌+◌, ◌∙◌, ◌≡◌,
}
use personal_knowledge_mcp.Tokens.Finds.{touch}
use personal_knowledge_mcp.Tokens.Queries.{is_active}
use personal_knowledge_mcp.Tokens.Validation.{StoredToken, TokenMetadata}
use mathlib.Core.Option

-- One thing up to the expiry, another after it.
abbrev pub by_expiry {ℓ} : {A : Type ℓ} → ℕ → Option ℕ → A → A → A
by_expiry now none x y = x
by_expiry now (some end) x y = ite (dec_lt end now) y x

abbrev pub next_count : Option ℕ → ℕ
next_count none = 1
next_count (some k) = suc k

abbrev pub counted : ℕ → StoredToken → StoredToken
counted now t = record t {
  metadata = record t.metadata {
    last_used_at = some now;
    use_count = some (next_count t.metadata.use_count);
  };
}

-- What a validation makes of a token, and what a listing shows of it.
abbrev pub after_use : ℕ → StoredToken → StoredToken
after_use now t = if t.revoked then t else by_expiry now t.metadata.expires_at (counted now t) t

abbrev pub active_metadata : ℕ → Option StoredToken → Option TokenMetadata
active_metadata now none = none
active_metadata now (some t) =
    if t.revoked then none else by_expiry now t.metadata.expires_at (some t.metadata) none

expiry-lem {ℓ} :
    {A : Type ℓ} (now : ℕ) (end : Option ℕ) (x y : A)
    → (if elim end [ none ↦ false | some t ↦ ltb t now ] then y else x) ≡ by_expiry now end x y
expiry-lem now none x y = refl
expiry-lem now (some t) x y = ground arith

count-lem : (o : Option ℕ) → or_default o 0 + 1 ≡ next_count o
count-lem none = omega arith
count-lem (some k) = omega arith

touch-after_use : (now : ℕ) (t : StoredToken) → touch now t ≡ after_use now t
touch-after_use now t =
    rw (count-lem t.metadata.use_count) (
      ap (λ u. if t.revoked then t else u) (expiry-lem now t.metadata.expires_at (counted now t) t))

pub map-after_use :
    (now : ℕ) (o : Option StoredToken) → Option.map (touch now) o ≡ Option.map (after_use now) o
map-after_use now none = refl
map-after_use now (some t) = ap some (touch-after_use now t)

active-cases :
    (b x : Bool) (m : Option TokenMetadata)
    → (if not b && not x then m else none) ≡ (if b then none else if x then none else m)
active-cases true x m = refl
active-cases false true m = refl
active-cases false false m = refl

pub active-lem :
    (now : ℕ) (t : StoredToken)
    → (if is_active now t then some t.metadata else none) ≡ active_metadata now (some t)
active-lem now t =
    active-cases t.revoked _ (some t.metadata)
    ∙ ap (λ u. if t.revoked then none else u)
        (expiry-lem now t.metadata.expires_at (some t.metadata) none)
