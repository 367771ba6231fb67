-- ===== src/Tests/Changes.antt =====
-- The detection of changes on small runs (src/services/change-detection-service.ts).
use personal_knowledge_mcp.Base.{
  List, List-discrete, Text, [], arith, codes, false, none, refl, some, ℕ, ℕ_discrete, ◌+◌, ◌∷◌,
  ◌≡◌,
}
use personal_knowledge_mcp.ChangeDetection.Counts.{reports, waiting}
use personal_knowledge_mcp.ChangeDetection.Invariant.{IsOwned}
use personal_knowledge_mcp.ChangeDetection.Overlapping.{second_unlink_unpaired}
use personal_knowledge_mcp.ChangeDetection.Reports.{IsSound, run-IsSound, unlink_reported_once}
use personal_knowledge_mcp.ChangeDetection.Service.{
  Detector, Event, FileEvent, PendingUnlink, add, capture_ends, captured_change,
  default_change_detection_config, deleted_change, dispose, find_pending_unlink, handle_add_event,
  handle_change_event, handle_unlink_event, rename_confidence, run, stat_answers, step, timer,
  timer_fires, unlink,
}
use personal_knowledge_mcp.ChangeDetection.Timers.{unlink_of}
use personal_knowledge_mcp.JsMap.Defs.{delete, get, has, set}

program : Unit {0}
unfolding run step handle_add_event find_pending_unlink handle_change_event handle_unlink_event
    timer_fires capture_ends captured_change rename_confidence deleted_change dispose get set delete
    has ℕ_discrete List-discrete
program = tt

-- All files of these tests are called `a`.
abbrev name_of : Text → Text
name_of path = codes "a"

abbrev event : Text → ℕ → FileEvent
event path now = record {
  absolute_path = path;
  relative_path = path;
  extension = codes "ts";
  folder_id = codes "f";
  folder_path = codes "/";
  timestamp = now;
}

abbrev at_start : Detector
at_start = record {
  file_states = [];
  pending_unlinks = [];
  timers = [];
  captures = [];
  next = 0;
  disposed = false;
}

at_start-IsOwned : IsOwned name_of [] []
unfolding program
at_start-IsOwned = record { timed = λ k p h. cc; keyed = λ k p h. cc; named = λ n p h. cc }

at_start-IsSound : IsSound name_of default_change_detection_config at_start
unfolding program
at_start-IsSound = record {
  is_valid = record {
    owned = at_start-IsOwned;
    timers_map = tt;
    captures_map = tt;
    timers_below = λ k h. cc;
    captures_below = λ k h. cc;
    open_still = refl;
  };
  unused = λ n h. refl;
}

-- A file is moved within the window.
abbrev moved : List (ℕ × Event)
moved =
    (100, add (event (codes "/new/a") 100))
    ∷ (110, stat_answers 1 (some (7, 9)))
    ∷ (900, timer 0)
    ∷ []

unlink_reported_once_example :
    reports 0
        (run name_of default_change_detection_config
          ((50, unlink (event (codes "/old/a") 50)) ∷ moved)
          at_start).1
      + waiting 0
          (run name_of default_change_detection_config
            ((50, unlink (event (codes "/old/a") 50)) ∷ moved)
            at_start).0
    ≡ 1
unfolding program
unlink_reported_once_example =
    unlink_reported_once name_of default_change_detection_config 50 (event (codes "/old/a") 50)
      moved at_start at_start-IsSound (tt, (tt, (tt, tt)))

abbrev twice : List (ℕ × Event)
twice = (0, unlink (event (codes "/x/a") 0)) ∷ (400, unlink (event (codes "/y/a") 400)) ∷ []

abbrev first_unlink : PendingUnlink
first_unlink = record {
  file = event (codes "/x/a") 0;
  previous_state = none;
  size_bytes = none;
  timer = 0;
}

abbrev second_unlink : PendingUnlink
second_unlink = record {
  file = event (codes "/y/a") 400;
  previous_state = none;
  size_bytes = none;
  timer = 1;
}

second_unlink_unpaired_example :
    (find_pending_unlink name_of default_change_detection_config
        (event (codes "/z/a") 600)
        (step name_of default_change_detection_config 500
          (timer 0)
          (run name_of default_change_detection_config twice at_start).0).0
      ≡ none)
    × (unlink_of 1
          (step name_of default_change_detection_config 500
            (timer 0)
            (run name_of default_change_detection_config twice at_start).0).0.timers
        ≡ some second_unlink)
unfolding program
second_unlink_unpaired_example =
    second_unlink_unpaired name_of default_change_detection_config 500 0 500 first_unlink
      second_unlink (event (codes "/z/a") 600)
      (run name_of default_change_detection_config twice at_start).0
      (run-IsSound name_of default_change_detection_config twice at_start at_start-IsSound
        (tt, (tt, tt))).is_valid
      refl (omega arith) refl (omega arith) refl
