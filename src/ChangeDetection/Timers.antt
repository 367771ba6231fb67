-- ===== src/ChangeDetection/Timers.antt =====
-- Which unlink a timer is for (src/services/change-detection-service.ts).
use personal_knowledge_mcp.Base.{
  Bool-cases, List, Option, ap, arith, false, if_neg, if_pos, inl, inr, is_some, none, refl, some,
  sym, true, ℕ, ℕ_discrete, ◌+◌, ◌<◌, ◌∷◌, ◌≡◌, ◌≢◌, ◌≤◌,
}
use personal_knowledge_mcp.ChangeDetection.Service.{PendingUnlink}
use personal_knowledge_mcp.JsMap.Defs.{delete, get, has}
use personal_knowledge_mcp.JsMap.Laws.{get-delete_ne, get-delete_self, has-delete}
use mathlib.Core.Option

-- The unlink that a timer is for.
abbrev pub unlink_of : ℕ → List (ℕ × (PendingUnlink × ℕ)) → Option PendingUnlink
unlink_of n timers = Option.map (λ x. x.0) (get ℕ_discrete n timers)

pub is_some-map :
    (p : PendingUnlink) (o : Option (PendingUnlink × ℕ))
    → Option.map (λ x. x.0) o ≡ some p
    → is_some o ≡ true
is_some-map p none e = cc
is_some-map p (some x) e = refl

pub unlink_of-cons_self :
    (n : ℕ) (p : PendingUnlink) (due : ℕ) (timers : List (ℕ × (PendingUnlink × ℕ)))
    → unlink_of n ((n, (p, due)) ∷ timers) ≡ some p
unfolding get
unlink_of-cons_self n p due timers = rw (if_pos (ℕ_discrete n n) refl)

pub unlink_of-cons_ne :
    (m n : ℕ) (x : PendingUnlink × ℕ) (timers : List (ℕ × (PendingUnlink × ℕ)))
    → n ≢ m
    → unlink_of m ((n, x) ∷ timers) ≡ unlink_of m timers
unfolding get
unlink_of-cons_ne m n x timers h = rw (if_neg (ℕ_discrete n m) h)

pub unlink_of-delete_ne :
    (n k : ℕ) (timers : List (ℕ × (PendingUnlink × ℕ)))
    → n ≢ k
    → unlink_of n (delete ℕ_discrete k timers) ≡ unlink_of n timers
unlink_of-delete_ne n k timers h =
    ap (Option.map (λ x. x.0)) (get-delete_ne ℕ_discrete k n timers h)

pub unlink_of-delete_self :
    (n : ℕ) (timers : List (ℕ × (PendingUnlink × ℕ)))
    → unlink_of n (delete ℕ_discrete n timers) ≡ none
unlink_of-delete_self n timers = ap (Option.map (λ x. x.0)) (get-delete_self ℕ_discrete n timers)

pub has-unlink_of :
    (n : ℕ) (p : PendingUnlink) (timers : List (ℕ × (PendingUnlink × ℕ)))
    → unlink_of n timers ≡ some p
    → has ℕ_discrete n timers ≡ true
unfolding has
has-unlink_of n p timers e = is_some-map p (get ℕ_discrete n timers) e

pub absent-has :
    {A : Type 0} (k : ℕ) (m : List (ℕ × A)) (next : ℕ)
    → ((j : ℕ) → has ℕ_discrete j m ≡ true → j < next)
    → next ≤ k
    → has ℕ_discrete k m ≡ false
absent-has k m next below le = elim (Bool-cases (has ℕ_discrete k m)) [
  | inl e ↦ absurd (omega (arith, below k e))
  | inr e ↦ e
]

pub has-cons-lt :
    {A : Type 0} (k n : ℕ) (a : A) (m : List (ℕ × A))
    → ((j : ℕ) → has ℕ_discrete j m ≡ true → j < n)
    → has ℕ_discrete k ((n, a) ∷ m) ≡ true
    → k < n + 1
unfolding has get
has-cons-lt k n a m below e = ground (arith, below k)

pub has-delete-true :
    {A : Type 0} (k n : ℕ) (m : List (ℕ × A))
    → has ℕ_discrete k (delete ℕ_discrete n m) ≡ true
    → has ℕ_discrete k m ≡ true
has-delete-true k n m e = ground (arith, has-delete ℕ_discrete n k m)

pub has-cons-new :
    {A : Type 0} (k n : ℕ) (a : A) (m : List (ℕ × A))
    → k ≢ n
    → has ℕ_discrete k ((n, a) ∷ m) ≡ has ℕ_discrete k m
unfolding has get
has-cons-new k n a m h = rw (if_neg (ℕ_discrete n k) (λ e. h (sym e)))

pub has-cons_self :
    {A : Type 0} (n : ℕ) (a : A) (m : List (ℕ × A)) → has ℕ_discrete n ((n, a) ∷ m) ≡ true
unfolding has get
has-cons_self n a m = rw (if_pos (ℕ_discrete n n) refl)
