-- ===== src/ChangeDetection/Invariant.antt =====
-- Every pending unlink has its timer (src/services/change-detection-service.ts).
use personal_knowledge_mcp.Base.{
  List, Text, ap, arith, false, if_neg, if_pos, inl, inr, some, subst, sym, true, ℕ, ℕ_discrete,
  ◌<◌, ◌∙◌, ◌∷◌, ◌≡◌, ◌≢◌, ◌⊎◌,
}
use personal_knowledge_mcp.ChangeDetection.Service.{
  Capture, Detector, PendingUnlink, Text-discrete, correlation_key, suspend,
}
use personal_knowledge_mcp.ChangeDetection.Timers.{
  absent-has, has-cons-lt, has-delete-true, has-unlink_of, unlink_of, unlink_of-cons_ne,
  unlink_of-cons_self, unlink_of-delete_ne, unlink_of-delete_self,
}
use personal_knowledge_mcp.JsMap.Defs.{delete, get, has, set}
use personal_knowledge_mcp.JsMap.Laws.{IsMap, delete-IsMap, get-delete_ne, get-delete_self, get-set}

module _ (basename : Text → Text) where
  pub record IsOwned (timers : List (ℕ × (PendingUnlink × ℕ)))
      (pending : List (Text × PendingUnlink)) : Type 0 where
    pub timed :
        (k : Text) (p : PendingUnlink)
        → get Text-discrete k pending ≡ some p
        → unlink_of p.timer timers ≡ some p
    pub keyed :
        (k : Text) (p : PendingUnlink)
        → get Text-discrete k pending ≡ some p
        → correlation_key basename p.file ≡ k
    pub named : (n : ℕ) (p : PendingUnlink) → unlink_of n timers ≡ some p → p.timer ≡ n

  module _ (timers : List (ℕ × (PendingUnlink × ℕ))) (pending : List (Text × PendingUnlink))
      (v : IsOwned timers pending) (n : ℕ) (p : PendingUnlink)
      (found : unlink_of n timers ≡ some p) where
    -- What is left is not for the timer that goes.
    kept :
        (k : Text) (q : PendingUnlink)
        → get Text-discrete k (delete Text-discrete (correlation_key basename p.file) pending)
          ≡ some q
        → (get Text-discrete k pending ≡ some q) × (q.timer ≢ n)
    kept k q e = elim (Text-discrete k (correlation_key basename p.file)) [
      | yes same ↦ cc (get-delete_self Text-discrete (correlation_key basename p.file) pending)
      | no other ↦
          let old =
            sym (get-delete_ne Text-discrete (correlation_key basename p.file) k pending other)
            ∙ e in
          (old, λ t. other (cc (v.keyed k q old, v.timed k q old)))
    ]

    drop-IsOwned :
        IsOwned
          (delete ℕ_discrete n timers)
          (delete Text-discrete (correlation_key basename p.file) pending)
    drop-IsOwned = record {
      timed =
          λ k q e. unlink_of-delete_ne q.timer n timers (kept k q e).1 ∙ v.timed k q (kept k q e).0;
      keyed = λ k q e. v.keyed k q (kept k q e).0;
      named = λ m q e. elim (ℕ_discrete m n) [
        | yes same ↦ cc (unlink_of-delete_self n timers)
        | no other ↦ v.named m q (sym (unlink_of-delete_ne m n timers other) ∙ e)
      ];
    }

  pub record IsValid (s : Detector) : Type 0 where
    pub owned : IsOwned s.timers s.pending_unlinks
    pub timers_map : IsMap ℕ_discrete s.timers
    pub captures_map : IsMap ℕ_discrete s.captures
    pub timers_below : (k : ℕ) → has ℕ_discrete k s.timers ≡ true → k < s.next
    pub captures_below : (k : ℕ) → has ℕ_discrete k s.captures ≡ true → k < s.next
    pub open_still : s.disposed ≡ false

  pub suspend-IsValid : (c : Capture) (s : Detector) → IsValid s → IsValid (suspend basename c s)
  suspend-IsValid c s v = record {
    owned = v.owned;
    timers_map = v.timers_map;
    captures_map =
        (absent-has s.next s.captures s.next v.captures_below (omega arith), v.captures_map);
    timers_below = λ k e. omega (arith, v.timers_below k e);
    captures_below = λ k e. has-cons-lt k s.next c s.captures v.captures_below e;
    open_still = v.open_still;
  }

  pub drop-IsValid :
      (n : ℕ) (p : PendingUnlink) (s : Detector)
      → IsValid s
      → unlink_of n s.timers ≡ some p
      → IsValid (record s {
        timers = delete ℕ_discrete n s.timers;
        pending_unlinks = delete Text-discrete (correlation_key basename p.file) s.pending_unlinks;
      })
  drop-IsValid n p s v e = record {
    owned = drop-IsOwned s.timers s.pending_unlinks v.owned n p e;
    timers_map = delete-IsMap ℕ_discrete n s.timers v.timers_map;
    captures_map = v.captures_map;
    timers_below = λ k h. v.timers_below k (has-delete-true k n s.timers h);
    captures_below = v.captures_below;
    open_still = v.open_still;
  }

  -- A new pending unlink is there under its key, and the others are as they were.
  get-set-cases :
      (key k : Text) (p q : PendingUnlink) (pending : List (Text × PendingUnlink))
      → get Text-discrete k (set Text-discrete key p pending) ≡ some q
      → ((key ≡ k) × (p ≡ q)) ⊎ (get Text-discrete k pending ≡ some q)
  get-set-cases key k p q pending h = elim (Text-discrete key k) [
    | yes same ↦ inl (
      same,
      cc (
        get-set Text-discrete key k p pending,
        if_pos (Text-discrete key k) same (some p) (get Text-discrete k pending),
      ),
    )
    | no other ↦ inr (
        sym (if_neg (Text-discrete key k) other (some p) (get Text-discrete k pending))
        ∙ sym (get-set Text-discrete key k p pending)
        ∙ h)
  ]

  module _ (p : PendingUnlink) (due : ℕ) (s : Detector) (v : IsValid s) (e : p.timer ≡ s.next) where
    abbrev timers_with : List (ℕ × (PendingUnlink × ℕ))
    timers_with = (s.next, (p, due)) ∷ s.timers

    new-timed : unlink_of p.timer timers_with ≡ some p
    new-timed = ap (λ k. unlink_of k timers_with) e ∙ unlink_of-cons_self s.next p due s.timers

    old-timed :
        (q : PendingUnlink)
        → unlink_of q.timer s.timers ≡ some q
        → unlink_of q.timer timers_with ≡ some q
    old-timed q h =
        unlink_of-cons_ne q.timer s.next (p, due) s.timers
          (λ same.
            absurd
              (omega (arith, v.timers_below q.timer (has-unlink_of q.timer q s.timers h), same)))
        ∙ h

    new-named :
        (m : ℕ) (q : PendingUnlink) → s.next ≡ m → unlink_of m timers_with ≡ some q → q.timer ≡ m
    new-named m q same h = cc (new-timed, e)

    pub unlink-IsOwned :
        IsOwned timers_with
          (set Text-discrete (correlation_key basename p.file) p s.pending_unlinks)
    unlink-IsOwned = record {
      timed = λ k q h.
          elim (get-set-cases (correlation_key basename p.file) k p q s.pending_unlinks h) [
            | inl (same, pq) ↦ subst (λ x. unlink_of x.timer timers_with ≡ some x) pq new-timed
            | inr old ↦ old-timed q (v.owned.timed k q old)
          ];
      keyed = λ k q h.
          elim (get-set-cases (correlation_key basename p.file) k p q s.pending_unlinks h) [
            | inl (same, pq) ↦ ap (λ x. correlation_key basename x.file) (sym pq) ∙ same
            | inr old ↦ v.owned.keyed k q old
          ];
      named = λ m q h. elim (ℕ_discrete s.next m) [
        | yes same ↦ new-named m q same h
        | no other ↦
            v.owned.named m q (sym (unlink_of-cons_ne m s.next (p, due) s.timers other) ∙ h)
      ];
    }
