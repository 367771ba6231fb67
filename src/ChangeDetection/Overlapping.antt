-- ===== src/ChangeDetection/Overlapping.antt =====
-- Two unlinks of one file name in a folder (src/services/change-detection-service.ts).
use personal_knowledge_mcp.Base.{
  Text, [], ap, arith, false, if-false, ltb, none, some, ℕ, ℕ_discrete, ◌∙◌, ◌∷◌, ◌≡◌, ◌≢◌, ◌≤◌,
}
use personal_knowledge_mcp.ChangeDetection.Invariant.{IsValid}
use personal_knowledge_mcp.ChangeDetection.Service.{
  ChangeDetectionConfig, Detector, FileEvent, PendingUnlink, Text-discrete, correlation_key,
  deleted_change, find_pending_unlink, step, timer, timer_fires, window_over,
}
use personal_knowledge_mcp.ChangeDetection.Timers.{unlink_of, unlink_of-delete_ne}
use personal_knowledge_mcp.JsMap.Defs.{delete, get}
use personal_knowledge_mcp.JsMap.Laws.{get-delete_self}

module _ (basename : Text → Text) (config : ChangeDetectionConfig) where
  find-absent :
      (e : FileEvent) (s : Detector)
      → get Text-discrete (correlation_key basename e) s.pending_unlinks ≡ none
      → find_pending_unlink basename config e s ≡ none
  unfolding find_pending_unlink
  find-absent e s h = rw h

  -- The service once the timer of an unlink has fired.
  abbrev fired : ℕ → PendingUnlink → Detector → Detector
  fired n p s = record s {
    timers = delete ℕ_discrete n s.timers;
    pending_unlinks = delete Text-discrete (correlation_key basename p.file) s.pending_unlinks;
  }

  timer-fired :
      (later n : ℕ) (p : PendingUnlink) (due : ℕ) (s : Detector)
      → s.disposed ≡ false
      → get ℕ_discrete n s.timers ≡ some (p, due)
      → due ≤ later
      → step basename config later (timer n) s
        ≡ (fired n p s, (some n, deleted_change basename p) ∷ [])
  unfolding step timer_fires
  timer-fired later n p due s open_still e h =
      if-false s.disposed (s, []) (window_over basename later n (get ℕ_discrete n s.timers) s)
        open_still
      ∙ ap (λ o. window_over basename later n o s) e
      ∙ if-false (ltb later due) (s, []) (fired n p s, (some n, deleted_change basename p) ∷ [])
          (ground (arith, h))

  -- Let every pending unlink be under its key and have its timer, the numbers of timers and of
  -- suspended captures be distinct, and the service not be disposed. If the timer of one unlink
  -- fires while another unlink of the same folder and file name is pending, the other is no
  -- longer found for an added file of that name, although its own timer still runs.
  pub second_unlink_unpaired :
      (later n due : ℕ) (p q : PendingUnlink) (f : FileEvent) (s : Detector)
      → IsValid basename s
      → get ℕ_discrete n s.timers ≡ some (p, due)
      → due ≤ later
      → get Text-discrete (correlation_key basename p.file) s.pending_unlinks ≡ some q
      → q.timer ≢ n
      → correlation_key basename f ≡ correlation_key basename p.file
      → (find_pending_unlink basename config f (step basename config later (timer n) s).0 ≡ none)
        × (unlink_of q.timer (step basename config later (timer n) s).0.timers ≡ some q)
  second_unlink_unpaired later n due p q f s v e h other ne k =
      rw (timer-fired later n p due s v.open_still e h) (
        find-absent f (fired n p s) (
            ap (λ x. get Text-discrete x (fired n p s).pending_unlinks) k
            ∙ get-delete_self Text-discrete (correlation_key basename p.file) s.pending_unlinks),
        unlink_of-delete_ne q.timer n s.timers ne
            ∙ v.owned.timed (correlation_key basename p.file) q other,
      )
