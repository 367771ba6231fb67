-- ===== src/ChangeDetection/Reports.antt =====
-- Every unlink is reported once (src/services/change-detection-service.ts).
use personal_knowledge_mcp.Base.{
  List, Text, [], ap, arith, if-false, subst, sym, ℕ, ◌+◌, ◌<◌, ◌∙◌, ◌∷◌, ◌≡◌, ◌≤◌,
}
use personal_knowledge_mcp.ChangeDetection.Conserved.{AllFileWork, IsFileWork, step-IsKept}
use personal_knowledge_mcp.ChangeDetection.Counts.{count_if, reports, reports-append, waiting}
use personal_knowledge_mcp.ChangeDetection.Invariant.{IsValid}
use personal_knowledge_mcp.ChangeDetection.Service.{
  ChangeDetectionConfig, Detector, Event, FileEvent, handle_unlink_event, new_pending, run, step,
  unlink,
}
use personal_knowledge_mcp.ChangeDetection.Timers.{has-cons_self}

module _ (basename : Text → Text) (config : ChangeDetectionConfig) where
  -- No number is in use that has not been given out.
  pub record IsSound (s : Detector) : Type 0 where
    pub is_valid : IsValid basename s
    pub unused : (n : ℕ) → s.next ≤ n → waiting n s ≡ 0

  step-IsSound :
      (now : ℕ) (e : Event) (s : Detector)
      → IsSound s
      → IsFileWork basename config e
      → IsSound (step basename config now e s).0
  step-IsSound now e s v w = record {
    is_valid = (step-IsKept basename config 0 now e s v.is_valid w).valid;
    unused = λ n h.
        let kept = step-IsKept basename config n now e s v.is_valid w in
        omega (
          arith,
          kept.grows,
          kept.same (λ x y. absurd (omega (arith, h, y))),
          v.unused n (omega (arith, h, kept.grows)),
        );
  }

  pub run-IsSound :
      (es : List (ℕ × Event)) (s : Detector)
      → IsSound s
      → AllFileWork basename config es
      → IsSound (run basename config es s).0
  unfolding run
  run-IsSound [] s v w = v
  run-IsSound ((now, e) ∷ es) s v w =
      run-IsSound es (step basename config now e s).0 (step-IsSound now e s v w.0) w.1

  run-conserves :
      (n : ℕ) (es : List (ℕ × Event)) (s : Detector)
      → IsValid basename s
      → AllFileWork basename config es
      → n < s.next
      → reports n (run basename config es s).1 + waiting n (run basename config es s).0
        ≡ waiting n s
  unfolding run
  run-conserves n [] s v w h = omega arith
  run-conserves n ((now, e) ∷ es) s v w h =
      let kept = step-IsKept basename config n now e s v w.0 in
      omega (
        arith,
        reports-append n (step basename config now e s).1
            (run basename config es (step basename config now e s).0).1,
        kept.same (λ x y. absurd (omega (arith, h, y))),
        run-conserves n es (step basename config now e s).0 kept.valid w.1
            (omega (arith, kept.grows, h)),
      )

  unlink-waiting :
      (now : ℕ) (e : FileEvent) (s : Detector)
      → IsSound s
      → waiting s.next (handle_unlink_event basename config now e s) ≡ 1
  unfolding handle_unlink_event
  unlink-waiting now e s v = omega (
    arith,
    ap count_if
        (has-cons_self s.next (new_pending basename e s, now + config.rename_window_ms) s.timers),
    v.unused s.next (omega arith),
  )

  next-grows :
      (now : ℕ) (e : FileEvent) (s : Detector)
      → s.next < (handle_unlink_event basename config now e s).next
  unfolding handle_unlink_event
  next-grows now e s = omega arith

  -- Let every pending unlink be under its key and have its timer, the numbers of timers and of
  -- suspended captures be distinct, all numbers in use be among those given out, and the service
  -- not be disposed. Then an unlink is never lost and never reported twice: whatever file events,
  -- timers and answers of `stat` follow, as long as the service is not disposed, either its
  -- deletion or its rename has been given out, once in all, or else it waits for exactly one
  -- thing, its timer or the capture for its rename.
  pub unlink_reported_once :
      (now : ℕ) (e : FileEvent) (es : List (ℕ × Event)) (s : Detector)
      → IsSound s
      → AllFileWork basename config es
      → reports s.next (run basename config ((now, unlink e) ∷ es) s).1
          + waiting s.next (run basename config ((now, unlink e) ∷ es) s).0
        ≡ 1
  unfolding run step
  unlink_reported_once now e es s v w =
      let e1 =
        if-false s.disposed s (handle_unlink_event basename config now e s) v.is_valid.open_still in
      subst
        (λ x.
          reports s.next (run basename config es x).1 + waiting s.next (run basename config es x).0
          ≡ 1)
        (sym e1)
        (run-conserves s.next es (handle_unlink_event basename config now e s)
            (subst (λ x. IsValid basename x) e1
              (step-IsKept basename config 0 now (unlink e) s v.is_valid tt).valid)
            w (next-grows now e s)
          ∙ unlink-waiting now e s v)
