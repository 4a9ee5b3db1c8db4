-- ===== src/App/Android/Stopwatch.antt =====
-- HomeFragment.java and StudySession.java: the toggle button, the chronometer and the instance
-- state. A use of a null session is a crash.
use study_hours.Common.{
  ℕ, ◌-◌, Bool, true, false, not, ◌||◌, Option, none, some, List, [], ◌∷◌, leb, if◌then◌else◌,
}

-- System.currentTimeMillis and SystemClock.elapsedRealtime at one moment.
pub record Clock : Type 0 where
  pub wall : ℕ
  pub elapsed : ℕ

pub record StudySession : Type 0 where
  pub in_time : ℕ
  pub out_time : ℕ

abbrev pub new_session : Clock → StudySession
new_session now = record { in_time = now.wall; out_time = 0 }

abbrev pub set_out : Clock → StudySession → StudySession
set_out now s = record s { out_time = now.wall }

-- The fields, the chronometer's base and whether it runs, and the button.
pub record Fragment : Type 0 where
  pub inherited : Bool
  pub was_running : Bool
  pub stop_offset : ℕ
  pub check_in : ℕ
  pub study_session : Option StudySession
  pub base : ℕ
  pub ticking : Bool
  pub checked : Bool

-- A new fragment with its view; its chronometer starts from the present.
abbrev pub new_fragment : Clock → Fragment
new_fragment now = record {
  inherited = false;
  was_running = false;
  stop_offset = 0;
  check_in = 0;
  study_session = none;
  base = now.elapsed;
  ticking = false;
  checked = false;
}

-- The popup that a check-out shows: the offer to submit the duration, or the refusal.
pub data Popup : Type 0 where
  offer : ℕ → Popup
  too_short : Popup

abbrev pub popup_of : ℕ → Popup
popup_of diff = if leb 1800000 diff then offer diff else too_short

-- onCheckedChanged(true).
abbrev pub on_checked : Clock → Fragment → Fragment
on_checked now f =
    if not f.inherited || not f.was_running
    then record f {
      base = now.elapsed;
      study_session = some (new_session now);
      check_in = now.wall;
      ticking = true;
      inherited = false;
    }
    else record f { ticking = true; inherited = false }

-- onCheckedChanged(false), for the session that it finds.
abbrev pub on_unchecked : Option StudySession → Clock → Fragment → Option (Fragment × Popup)
on_unchecked none now f = none
on_unchecked (some s) now f = some (
  record f {
    ticking = false;
    stop_offset = now.elapsed - f.base;
    study_session = some (set_out now s);
    inherited = false;
  },
  popup_of (now.wall - s.in_time),
)

-- A press turns the button over and calls its listener.
abbrev pub press_from : Bool → Clock → Fragment → Option (Fragment × Option Popup)
press_from false now f = some (on_checked now (record f { checked = true }), none)
press_from true now f = elim (on_unchecked f.study_session now (record f { checked = false })) [
  | none ↦ none
  | some (g, p) ↦ some (g, some p)
]

abbrev pub press : Clock → Fragment → Option (Fragment × Option Popup)
press now f = press_from f.checked now f

-- What onSaveInstanceState puts into the bundle.
pub record Bundle : Type 0 where
  pub clock : ℕ
  pub running : Bool
  pub offset : ℕ
  pub check_in : ℕ

abbrev pub on_save_instance_state : Fragment → Bundle
on_save_instance_state f = record {
  clock = f.base;
  running = f.checked;
  offset = f.stop_offset;
  check_in = f.check_in;
}

-- onActivityCreated with a bundle.
abbrev pub on_activity_created : Bundle → Clock → Fragment → Fragment
on_activity_created b now f =
    if b.running
    then record f {
      inherited = true;
      was_running = true;
      stop_offset = b.offset;
      check_in = b.check_in;
      base = b.clock;
      study_session = some (record (new_session now) { in_time = b.check_in });
    }
    else record f {
      inherited = true;
      was_running = false;
      stop_offset = b.offset;
      check_in = b.check_in;
      base = now.elapsed - b.offset;
    }

-- Android then gives the button its saved state back, which calls the listener where it changes.
abbrev pub restore_button : Bool → Clock → Fragment → Fragment
restore_button true now f = on_checked now (record f { checked = true })
restore_button false now f = f

-- The fragment is destroyed and made anew, as by a rotation of the screen.
abbrev pub recreate : Clock → Fragment → Fragment
recreate now f =
    restore_button f.checked now
      (on_activity_created (on_save_instance_state f) now (new_fragment now))

pub data Event : Type 0 where
  pressed : Event
  recreated : Event

abbrev pub handle : Event → Clock → Fragment → Option (Fragment × Option Popup)
handle pressed now f = press now f
handle recreated now f = some (recreate now f, none)

-- A run over events and their moments, with the popups in order.
abbrev pub run : List (Event × Clock) → Fragment → Option (Fragment × List Popup)
run [] f = some (f, [])
run ((e, now) ∷ es) f = elim (handle e now f) [
  | none ↦ none
  | some (g, none) ↦ run es g
  | some (g, some p) ↦ elim (run es g) [ none ↦ none | some (h, ps) ↦ some (h, p ∷ ps) ]
]
