-- ===== src/ChangeDetection/Counts.antt =====
-- Where the number of an unlink stands (src/services/change-detection-service.ts).
use personal_knowledge_mcp.Base.{
  Bool, List, [], ap, arith, false, if_neg, if_pos, none, some, subst, sym, true, ℕ, ℕ_discrete,
  ◌++◌, ◌+◌, ◌==◌, ◌∙◌, ◌∷◌, ◌≡◌,
}
use personal_knowledge_mcp.ChangeDetection.Service.{
  Capture, Detector, Output, PendingUnlink, adding, modifying, renaming,
}
use personal_knowledge_mcp.ChangeDetection.Timers.{has-unlink_of, unlink_of}
use personal_knowledge_mcp.JsMap.Defs.{delete, get, has}
use personal_knowledge_mcp.JsMap.Laws.{IsMap, delete_absent, has-delete}

-- How often a number stands among the timers, the suspended renames and what is given out.

abbrev pub count_if : Bool → ℕ
count_if true = 1
count_if false = 0

abbrev pub of_capture : ℕ → Capture → ℕ
of_capture n (adding e) = 0
of_capture n (modifying e previous) = 0
of_capture n (renaming p e) = count_if (p.timer == n)

abbrev pub in_captures : ℕ → List (ℕ × Capture) → ℕ
in_captures n [] = 0
in_captures n ((k, c) ∷ cs) = of_capture n c + in_captures n cs

abbrev pub reports : ℕ → List Output → ℕ
reports n [] = 0
reports n ((none, c) ∷ out) = reports n out
reports n ((some m, c) ∷ out) = count_if (m == n) + reports n out

abbrev pub waiting : ℕ → Detector → ℕ
waiting n s = count_if (has ℕ_discrete n s.timers) + in_captures n s.captures

pub reports-append : (n : ℕ) (a b : List Output) → reports n (a ++ b) ≡ reports n a + reports n b
reports-append n [] b = omega arith
reports-append n ((none, c) ∷ a) b = reports-append n a b
reports-append n ((some m, c) ∷ a) b = omega (arith, reports-append n a b)

pub in_captures-delete_absent :
    (n k : ℕ) (cs : List (ℕ × Capture))
    → has ℕ_discrete k cs ≡ false
    → in_captures n (delete ℕ_discrete k cs) ≡ in_captures n cs
in_captures-delete_absent n k cs h = ap (in_captures n) (delete_absent ℕ_discrete k cs h)

pub in_captures-delete :
    (n k : ℕ) (c : Capture) (cs : List (ℕ × Capture))
    → IsMap ℕ_discrete cs
    → get ℕ_discrete k cs ≡ some c
    → of_capture n c + in_captures n (delete ℕ_discrete k cs) ≡ in_captures n cs
unfolding get delete
in_captures-delete n k c [] h e = cc
in_captures-delete n k c ((j, d) ∷ cs) h e = elim (ℕ_discrete j k) [
  | yes same ↦
      let dc : d ≡ c = cc (if_pos (ℕ_discrete j k) same (some d) (get ℕ_discrete k cs)) in
      rw (if_pos (ℕ_discrete j k) same) (
        ap (λ x. of_capture n x + in_captures n (delete ℕ_discrete k cs)) (sym dc)
        ∙ ap (◌+◌ (of_capture n d))
            (in_captures-delete_absent n k cs (subst (λ i. has ℕ_discrete i cs ≡ false) same h.0)))
  | no other ↦ rw (if_neg (ℕ_discrete j k) other) (
      omega (
        arith,
        in_captures-delete n k c cs h.1
            (sym (if_neg (ℕ_discrete j k) other (some d) (get ℕ_discrete k cs)) ∙ e),
      ))
]

pub count-delete :
    (n k : ℕ) (p : PendingUnlink) (timers : List (ℕ × (PendingUnlink × ℕ)))
    → unlink_of k timers ≡ some p
    → count_if (k == n) + count_if (has ℕ_discrete n (delete ℕ_discrete k timers))
      ≡ count_if (has ℕ_discrete n timers)
count-delete n k p timers e =
    ground (arith, has-delete ℕ_discrete k n timers, has-unlink_of k p timers e)
