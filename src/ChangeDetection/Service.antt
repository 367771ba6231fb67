-- ===== src/ChangeDetection/Service.antt =====
-- `ChangeDetectionService` (src/services/change-detection-service.ts, with the types of
-- src/services/change-detection-types.ts). An unlink gets a number, which is also its timer's; a
-- state capture is suspended until `stat` answers. A change is given out with the number of the
-- unlink that it comes from, if it comes from one.
use personal_knowledge_mcp.Base.{
  Bool, List, List-discrete, Option, Text, [], if◌then◌else◌, ltb, none, not, same_text, some, true,
  ℕ, ℕ_discrete, ◌&&◌, ◌++◌, ◌+◌, ◌-◌, ◌==◌, ◌∷◌,
}
use personal_knowledge_mcp.JsMap.Defs.{delete, get, set}

pub data ChangeCategory : Type 0 where
  added modified deleted renamed : ChangeCategory

pub record FileState : Type 0 where
  pub absolute_path : Text
  pub relative_path : Text
  pub size_bytes : ℕ
  pub modified_at : ℕ
  pub extension : Text
  pub captured_at : ℕ

pub record FileEvent : Type 0 where
  pub absolute_path : Text
  pub relative_path : Text
  pub extension : Text
  pub folder_id : Text
  pub folder_path : Text
  pub timestamp : ℕ

-- The confidence of a rename is in tenths.
pub record DetectedChange : Type 0 where
  pub category : ChangeCategory
  pub file : FileEvent
  pub previous_path : Option Text
  pub previous_relative_path : Option Text
  pub current_state : Option FileState
  pub previous_state : Option FileState
  pub rename_confidence : Option ℕ

pub record ChangeDetectionConfig : Type 0 where
  pub rename_window_ms : ℕ
  pub enable_state_tracking : Bool

abbrev pub default_change_detection_config : ChangeDetectionConfig
default_change_detection_config = record { rename_window_ms = 500; enable_state_tracking = true }

pub record PendingUnlink : Type 0 where
  pub file : FileEvent
  pub previous_state : Option FileState
  pub size_bytes : Option ℕ
  pub timer : ℕ

-- What waits for the capture of a file's state.
pub data Capture : Type 0 where
  adding : FileEvent → Capture
  modifying : FileEvent → Option FileState → Capture
  renaming : PendingUnlink → FileEvent → Capture

pub record Detector : Type 0 where
  pub file_states : List (Text × FileState)
  pub pending_unlinks : List (Text × PendingUnlink)
  pub timers : List (ℕ × (PendingUnlink × ℕ))
  pub captures : List (ℕ × Capture)
  pub next : ℕ
  pub disposed : Bool

abbrev pub Output : Type 0
Output = Option ℕ × DetectedChange

abbrev pub Text-discrete : Discrete Text
Text-discrete = List-discrete ℕ_discrete

pub data Event : Type 0 where
  add change unlink : FileEvent → Event
  timer : ℕ → Event
  stat_answers : ℕ → Option (ℕ × ℕ) → Event
  disposes : Event

module _ (basename : Text → Text) where
  abbrev pub correlation_key : FileEvent → Text
  correlation_key e = e.folder_id ++ (b':' ∷ basename e.absolute_path)

  abbrev pub in_window : ChangeDetectionConfig → FileEvent → PendingUnlink → Bool
  in_window config e p =
      same_text p.file.folder_id e.folder_id
      && not (ltb config.rename_window_ms (e.timestamp - p.file.timestamp))

  abbrev pub checked_pending :
      ChangeDetectionConfig → FileEvent → Option PendingUnlink → Option PendingUnlink
  checked_pending config e none = none
  checked_pending config e (some p) = if in_window config e p then some p else none

  unfoldable pub find_pending_unlink :
      ChangeDetectionConfig → FileEvent → Detector → Option PendingUnlink
  find_pending_unlink config e s =
      checked_pending config e (get Text-discrete (correlation_key e) s.pending_unlinks)

  abbrev pub suspend : Capture → Detector → Detector
  suspend c s = record s { captures = (s.next, c) ∷ s.captures; next = s.next + 1 }

  abbrev pub add_with : FileEvent → Option PendingUnlink → Detector → Detector
  add_with e none s = suspend (adding e) s
  add_with e (some p) s = suspend (renaming p e) (record s {
    timers = delete ℕ_discrete p.timer s.timers;
    pending_unlinks = delete Text-discrete (correlation_key p.file) s.pending_unlinks;
  })

  unfoldable pub handle_add_event : ChangeDetectionConfig → FileEvent → Detector → Detector
  unfolding find_pending_unlink
  handle_add_event config e s = add_with e (find_pending_unlink config e s) s

  unfoldable pub handle_change_event : FileEvent → Detector → Detector
  handle_change_event e s =
      suspend (modifying e (get Text-discrete e.absolute_path s.file_states)) s

  abbrev pub new_pending : FileEvent → Detector → PendingUnlink
  new_pending e s = record {
    file = e;
    previous_state = get Text-discrete e.absolute_path s.file_states;
    size_bytes = elim (get Text-discrete e.absolute_path s.file_states) [
      | none ↦ none
      | some st ↦ some st.size_bytes
    ];
    timer = s.next;
  }

  unfoldable pub handle_unlink_event : ChangeDetectionConfig → ℕ → FileEvent → Detector → Detector
  handle_unlink_event config now e s = record s {
    file_states = delete Text-discrete e.absolute_path s.file_states;
    pending_unlinks = set Text-discrete (correlation_key e) (new_pending e s) s.pending_unlinks;
    timers = (s.next, (new_pending e s, now + config.rename_window_ms)) ∷ s.timers;
    next = s.next + 1;
  }

  unfoldable pub deleted_change : PendingUnlink → DetectedChange
  deleted_change p = record {
    category = deleted;
    file = p.file;
    previous_path = none;
    previous_relative_path = none;
    current_state = none;
    previous_state = p.previous_state;
    rename_confidence = none;
  }

  -- The timer of an unlink.
  abbrev pub window_over : ℕ → ℕ → Option (PendingUnlink × ℕ) → Detector → Detector × List Output
  window_over now n none s = (s, [])
  window_over now n (some (p, due)) s = if ltb now due then (s, []) else (
    record s {
      timers = delete ℕ_discrete n s.timers;
      pending_unlinks = delete Text-discrete (correlation_key p.file) s.pending_unlinks;
    },
    (some n, deleted_change p) ∷ [],
  )

  unfoldable pub timer_fires : ℕ → ℕ → Detector → Detector × List Output
  timer_fires now n s = window_over now n (get ℕ_discrete n s.timers) s

  unfoldable pub rename_confidence : ChangeDetectionConfig → PendingUnlink → Option FileState → ℕ
  rename_confidence config p current = elim p.size_bytes [
    | none ↦ 7
    | some size ↦ elim current [
      | none ↦ if config.enable_state_tracking then 9 else 7
      | some st ↦ if size == st.size_bytes then 9 else 7
    ]
  ]

  -- What is given out once the state is captured.
  unfoldable pub captured_change : ChangeDetectionConfig → Capture → Option FileState → Output
  unfolding rename_confidence
  captured_change config (adding e) current = (
    none,
    record {
      category = added;
      file = e;
      previous_path = none;
      previous_relative_path = none;
      current_state = current;
      previous_state = none;
      rename_confidence = none;
    },
  )
  captured_change config (modifying e previous) current = (
    none,
    record {
      category = modified;
      file = e;
      previous_path = none;
      previous_relative_path = none;
      current_state = current;
      previous_state = previous;
      rename_confidence = none;
    },
  )
  captured_change config (renaming p e) current = (
    some p.timer,
    record {
      category = renamed;
      file = e;
      previous_path = some p.file.absolute_path;
      previous_relative_path = some p.file.relative_path;
      current_state = current;
      previous_state = p.previous_state;
      rename_confidence = some (rename_confidence config p current);
    },
  )

  abbrev pub file_of : Capture → FileEvent
  file_of (adding e) = e
  file_of (modifying e previous) = e
  file_of (renaming p e) = e

  -- `captureFileState`, by what `stat` has answered: the size and the time of modification.
  abbrev pub file_state : ChangeDetectionConfig → ℕ → FileEvent → Option (ℕ × ℕ) → Option FileState
  file_state config now e none = none
  file_state config now e (some (size, modified_at)) =
      if config.enable_state_tracking
      then some (record {
        absolute_path = e.absolute_path;
        relative_path = e.relative_path;
        size_bytes = size;
        modified_at = modified_at;
        extension = e.extension;
        captured_at = now;
      })
      else none

  abbrev pub remember : FileEvent → Option FileState → Detector → Detector
  remember e none s = s
  remember e (some st) s = record s {
    file_states = set Text-discrete e.absolute_path st s.file_states;
  }

  -- A service that is disposed has no handlers any more.
  abbrev pub captured_by :
      ChangeDetectionConfig
      → ℕ
      → ℕ
      → Option (ℕ × ℕ)
      → Option Capture
      → Detector
      → Detector × List Output
  captured_by config now n answer none s = (s, [])
  captured_by config now n answer (some c) s = (
    remember (file_of c) (file_state config now (file_of c) answer)
        (record s { captures = delete ℕ_discrete n s.captures }),
    if s.disposed
        then []
        else captured_change config c (file_state config now (file_of c) answer) ∷ [],
  )

  unfoldable pub capture_ends :
      ChangeDetectionConfig → ℕ → ℕ → Option (ℕ × ℕ) → Detector → Detector × List Output
  unfolding captured_change
  capture_ends config now n answer s =
      captured_by config now n answer (get ℕ_discrete n s.captures) s

  abbrev pub flushed : List (Text × PendingUnlink) → List Output
  flushed [] = []
  flushed ((k, p) ∷ ps) = (some p.timer, deleted_change p) ∷ flushed ps

  abbrev pub without_timers :
      List (Text × PendingUnlink) → List (ℕ × (PendingUnlink × ℕ)) → List (ℕ × (PendingUnlink × ℕ))
  without_timers [] timers = timers
  without_timers ((k, p) ∷ ps) timers = without_timers ps (delete ℕ_discrete p.timer timers)

  unfoldable pub dispose : Detector → Detector × List Output
  unfolding deleted_change
  dispose s = if s.disposed then (s, []) else (
    record s {
      disposed = true;
      timers = without_timers s.pending_unlinks s.timers;
      pending_unlinks = [];
      file_states = [];
    },
    flushed s.pending_unlinks,
  )

  -- After disposal no file event is handled and no timer does anything.
  unfoldable pub step : ChangeDetectionConfig → ℕ → Event → Detector → Detector × List Output
  unfolding handle_add_event handle_change_event handle_unlink_event timer_fires capture_ends
      dispose
  step config now (add e) s = (if s.disposed then s else handle_add_event config e s, [])
  step config now (change e) s = (if s.disposed then s else handle_change_event e s, [])
  step config now (unlink e) s = (if s.disposed then s else handle_unlink_event config now e s, [])
  step config now (timer n) s = if s.disposed then (s, []) else timer_fires now n s
  step config now (stat_answers n answer) s = capture_ends config now n answer s
  step config now disposes s = dispose s

  unfoldable pub run : ChangeDetectionConfig → List (ℕ × Event) → Detector → Detector × List Output
  unfolding step
  run config [] s = (s, [])
  run config ((now, e) ∷ es) s =
      let (s1, out) = step config now e s in let (s2, rest) = run config es s1 in (s2, out ++ rest)
