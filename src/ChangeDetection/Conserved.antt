-- ===== src/ChangeDetection/Conserved.antt =====
-- What a step keeps of the numbers of the unlinks (src/services/change-detection-service.ts).
use personal_knowledge_mcp.Base.{
  List, Option, Text, [], ap, arith, if-elim, if-false, if◌then◌else◌, ltb, none, refl, some, subst,
  sym, ℕ, ℕ_discrete, ◌+◌, ◌<◌, ◌∷◌, ◌≡◌, ◌≢◌, ◌≤◌,
}
use personal_knowledge_mcp.ChangeDetection.Counts.{
  count-delete, count_if, in_captures, in_captures-delete, of_capture, reports, waiting,
}
use personal_knowledge_mcp.ChangeDetection.Invariant.{
  IsValid, drop-IsValid, suspend-IsValid, unlink-IsOwned,
}
use personal_knowledge_mcp.ChangeDetection.Service.{
  Capture, ChangeDetectionConfig, Detector, Event, FileEvent, FileState, Output, PendingUnlink,
  Text-discrete, add, add_with, adding, capture_ends, captured_by, captured_change, change,
  checked_pending, correlation_key, disposes, file_of, file_state, find_pending_unlink,
  handle_add_event, handle_change_event, handle_unlink_event, in_window, modifying, new_pending,
  remember, renaming, stat_answers, step, suspend, timer, timer_fires, unlink, window_over,
}
use personal_knowledge_mcp.ChangeDetection.Timers.{
  absent-has, has-cons-lt, has-cons-new, has-delete-true, unlink_of,
}
use personal_knowledge_mcp.JsMap.Defs.{delete, get, has}
use personal_knowledge_mcp.JsMap.Laws.{delete-IsMap}
use mathlib.Core.Option

module _ (basename : Text → Text) (config : ChangeDetectionConfig) where
  captured-reports :
      (n : ℕ) (c : Capture) (st : Option FileState)
      → reports n (captured_change basename config c st ∷ []) ≡ of_capture n c
  unfolding captured_change
  captured-reports n (adding e) st = refl
  captured-reports n (modifying e previous) st = refl
  captured-reports n (renaming p e) st = omega arith

  -- What a step keeps.
  pub record IsKept (n : ℕ) (s : Detector) (r : Detector × List Output) : Type 0 where
    pub valid : IsValid basename r.0
    pub grows : s.next ≤ r.0.next
    pub same : (s.next < r.0.next → n ≢ s.next) → reports n r.1 + waiting n r.0 ≡ waiting n s

  unchanged-IsKept : (n : ℕ) (s : Detector) → IsValid basename s → IsKept n s (s, [])
  unchanged-IsKept n s v = record { valid = v; grows = omega arith; same = λ h. omega arith }

  suspend-IsKept :
      (n : ℕ) (c : Capture) (s : Detector)
      → IsValid basename s
      → of_capture n c ≡ 0
      → IsKept n s (suspend basename c s, [])
  suspend-IsKept n c s v e = record {
    valid = suspend-IsValid basename c s v;
    grows = omega arith;
    same = λ h. omega (arith, e);
  }

  -- The pending unlink that an added file takes up is under its key.
  abbrev Found : Detector → Option PendingUnlink → Type 0
  Found s none = Unit
  Found s (some p) = unlink_of p.timer s.timers ≡ some p

  checked-Found :
      (e : FileEvent) (k : Text) (s : Detector) (o : Option PendingUnlink)
      → IsValid basename s
      → get Text-discrete k s.pending_unlinks ≡ o
      → Found s (checked_pending basename config e o)
  checked-Found e k s none v h = tt
  checked-Found e k s (some p) v h =
      if-elim (Found s) (in_window basename config e p) _ _ (λ x. v.owned.timed k p h) (λ x. tt)

  add_with-IsKept :
      (n : ℕ) (e : FileEvent) (o : Option PendingUnlink) (s : Detector)
      → IsValid basename s
      → Found s o
      → IsKept n s (add_with basename e o s, [])
  add_with-IsKept n e none s v f = suspend-IsKept n (adding e) s v refl
  add_with-IsKept n e (some p) s v f = record {
    valid = suspend-IsValid basename (renaming p e) _ (drop-IsValid basename p.timer p s v f);
    grows = omega arith;
    same = λ h. omega (arith, count-delete n p.timer p s.timers f);
  }

  unlink-IsValid :
      (now : ℕ) (e : FileEvent) (s : Detector)
      → IsValid basename s
      → IsValid basename (handle_unlink_event basename config now e s)
  unfolding handle_unlink_event
  unlink-IsValid now e s v = record {
    owned =
        unlink-IsOwned basename (new_pending basename e s) (now + config.rename_window_ms) s v refl;
    timers_map = (absent-has s.next s.timers s.next v.timers_below (omega arith), v.timers_map);
    captures_map = v.captures_map;
    timers_below = λ k h.
        has-cons-lt k s.next (new_pending basename e s, now + config.rename_window_ms) s.timers
          v.timers_below h;
    captures_below = λ k h. omega (arith, v.captures_below k h);
    open_still = v.open_still;
  }

  unlink-IsKept :
      (n now : ℕ) (e : FileEvent) (s : Detector)
      → IsValid basename s
      → IsKept n s (handle_unlink_event basename config now e s, [])
  unfolding handle_unlink_event
  unlink-IsKept n now e s v = record {
    valid = unlink-IsValid now e s v;
    grows = omega arith;
    same = λ h. omega (
      arith,
      ap count_if (
          has-cons-new n s.next (new_pending basename e s, now + config.rename_window_ms) s.timers
            (h (omega arith))),
    );
  }

  window_over-IsKept :
      (n now m : ℕ) (o : Option (PendingUnlink × ℕ)) (s : Detector)
      → IsValid basename s
      → get ℕ_discrete m s.timers ≡ o
      → IsKept n s (window_over basename now m o s)
  window_over-IsKept n now m none s v e = unchanged-IsKept n s v
  window_over-IsKept n now m (some (p, due)) s v e =
      if-elim (IsKept n s) (ltb now due) _ _ (λ x. unchanged-IsKept n s v)
        λ x. record {
          valid = drop-IsValid basename m p s v (ap (Option.map (λ y. y.0)) e);
          grows = omega arith;
          same = λ h. omega (arith, count-delete n m p s.timers (ap (Option.map (λ y. y.0)) e));
        }

  landed-IsValid :
      (m : ℕ) (s : Detector)
      → IsValid basename s
      → IsValid basename (record s { captures = delete ℕ_discrete m s.captures })
  landed-IsValid m s v = record {
    owned = v.owned;
    timers_map = v.timers_map;
    captures_map = delete-IsMap ℕ_discrete m s.captures v.captures_map;
    timers_below = v.timers_below;
    captures_below = λ k h. v.captures_below k (has-delete-true k m s.captures h);
    open_still = v.open_still;
  }

  remember-IsValid :
      (e : FileEvent) (st : FileState) (s : Detector)
      → IsValid basename s
      → IsValid basename (remember basename e (some st) s)
  remember-IsValid e st s v = record {
    owned = v.owned;
    timers_map = v.timers_map;
    captures_map = v.captures_map;
    timers_below = v.timers_below;
    captures_below = v.captures_below;
    open_still = v.open_still;
  }

  given_out :
      (n m : ℕ) (c : Capture) (st : Option FileState) (s : Detector)
      → IsValid basename s
      → get ℕ_discrete m s.captures ≡ some c
      → reports n (if s.disposed then [] else captured_change basename config c st ∷ [])
          + (count_if (has ℕ_discrete n s.timers) + in_captures n (delete ℕ_discrete m s.captures))
        ≡ waiting n s
  given_out n m c st s v e = omega (
    arith,
    ap (reports n)
        (if-false s.disposed [] (captured_change basename config c st ∷ []) v.open_still),
    captured-reports n c st,
    in_captures-delete n m c s.captures v.captures_map e,
  )

  remembered-IsKept :
      (n m : ℕ) (c : Capture) (st : Option FileState) (s : Detector)
      → IsValid basename s
      → get ℕ_discrete m s.captures ≡ some c
      → IsKept n s (
        remember basename
            (file_of basename c)
            st
            (record s { captures = delete ℕ_discrete m s.captures }),
        if s.disposed then [] else captured_change basename config c st ∷ [],
      )
  remembered-IsKept n m c none s v e = record {
    valid = landed-IsValid m s v;
    grows = omega arith;
    same = λ h. given_out n m c none s v e;
  }
  remembered-IsKept n m c (some st) s v e = record {
    valid = remember-IsValid (file_of basename c) st _ (landed-IsValid m s v);
    grows = omega arith;
    same = λ h. given_out n m c (some st) s v e;
  }

  captured_by-IsKept :
      (n now m : ℕ) (answer : Option (ℕ × ℕ)) (o : Option Capture) (s : Detector)
      → IsValid basename s
      → get ℕ_discrete m s.captures ≡ o
      → IsKept n s (captured_by basename config now m answer o s)
  captured_by-IsKept n now m answer none s v e = unchanged-IsKept n s v
  captured_by-IsKept n now m answer (some c) s v e =
      remembered-IsKept n m c (file_state basename config now (file_of basename c) answer) s v e

  -- The service is not disposed.
  abbrev pub IsFileWork : Event → Type 0
  IsFileWork (add e) = Unit
  IsFileWork (change e) = Unit
  IsFileWork (unlink e) = Unit
  IsFileWork (timer n) = Unit
  IsFileWork (stat_answers n answer) = Unit
  IsFileWork disposes = ⊥

  abbrev pub AllFileWork : List (ℕ × Event) → Type 0
  AllFileWork [] = Unit
  AllFileWork ((now, e) ∷ es) = IsFileWork e × AllFileWork es

  opened-IsKept :
      (n : ℕ) (s t : Detector)
      → IsValid basename s
      → IsKept n s (t, [])
      → IsKept n s (if s.disposed then s else t, [])
  opened-IsKept n s t v h =
      subst (λ x. IsKept n s (x, [])) (sym (if-false s.disposed s t v.open_still)) h

  pub step-IsKept :
      (n now : ℕ) (e : Event) (s : Detector)
      → IsValid basename s
      → IsFileWork e
      → IsKept n s (step basename config now e s)
  unfolding step handle_add_event find_pending_unlink handle_change_event timer_fires capture_ends
  step-IsKept n now (add e) s v w = opened-IsKept n s (handle_add_event basename config e s) v (
      add_with-IsKept n e (find_pending_unlink basename config e s) s v (
        checked-Found e (correlation_key basename e) s
          (get Text-discrete (correlation_key basename e) s.pending_unlinks) v refl))
  step-IsKept n now (change e) s v w =
      opened-IsKept n s (handle_change_event basename e s) v
        (suspend-IsKept n (modifying e (get Text-discrete e.absolute_path s.file_states)) s v refl)
  step-IsKept n now (unlink e) s v w =
      opened-IsKept n s (handle_unlink_event basename config now e s) v (unlink-IsKept n now e s v)
  step-IsKept n now (timer m) s v w =
      if-elim (IsKept n s) s.disposed _ _ (λ x. unchanged-IsKept n s v)
        (λ x. window_over-IsKept n now m (get ℕ_discrete m s.timers) s v refl)
  step-IsKept n now (stat_answers m answer) s v w =
      captured_by-IsKept n now m answer (get ℕ_discrete m s.captures) s v refl
  step-IsKept n now disposes s v w = absurd w
