-- ===== src/App/Ios/Record.antt =====
-- RecordViewController.swift: the screen that records a session, its callbacks as functions of the
-- screen, of what Firebase hands over and of the time. A forced unwrap of nil (`!`) is a crash.
use study_hours.App.Database.{Doubles, Format}
use study_hours.App.Node.{
  Child, Write, View, total_hours, num_sessions, sister_name, session, other, set_total, set_count,
  set_in, set_out, remove_session,
}
use study_hours.Common.{
  ℕ, ◌+◌, ◌-◌, ◌/◌, Bool, true, false, not, Option, none, some, List, [], ◌∷◌, ◌==◌, ltb,
  if◌then◌else◌,
}

-- The labels: the check-in that is shown, if any, and the minutes; `stop_title` is the button's.
pub record Screen : Type 0 where
  pub recording : Bool
  pub counter : ℕ
  pub timer_valid : Bool
  pub checked_in : Option ℕ
  pub stop_title : Bool

-- viewDidLoad and the stored properties' initial values, before Firebase answers.
abbrev pub initial : Screen
initial = record {
  recording = false;
  counter = 0;
  timer_valid = false;
  checked_in = none;
  stop_title = false;
}

-- What the controller waits for: the first value of startRecording, the second one for the running
-- session, and the answer to the alert, with the variables that the closures capture.
pub data Task (D : Type 0) : Type 0 where
  first_value : Task D
  second_value : ℕ → Option D → Task D
  confirm : ℕ → ℕ → ℕ → Option D → Task D

pub record Reply (D : Type 0) : Type 0 where
  pub screen : Screen
  pub writes : List (Write D)
  pub task : Option (Task D)

-- UpdateTimer, once a minute.
pub update_timer : Screen → Screen
update_timer s = record s { counter = s.counter + 1 }

abbrev pub update_screen : Bool → ℕ → ℕ → Screen → Screen
update_screen true in_time now s = record s {
  counter = (now - in_time) / 1000 / 60;
  timer_valid = true;
  checked_in = some in_time;
  stop_title = s.recording;
}
update_screen false in_time now s = record s {
  counter = 0;
  timer_valid = false;
  checked_in = none;
  stop_title = s.recording;
}

-- startRecording, up to the request.
abbrev pub start_recording : Screen → Screen
start_recording s = record s { recording = not s.recording }

-- The loop over the child's own children: `in` stays where there is none.
abbrev pub in_or : Option ℕ → ℕ → ℕ
in_or none old = old
in_or (some i) old = i

module _ {D : Type 0} where
  -- The first loop of the observer.
  abbrev pub last_count : Option ℕ → List (Child D) → Option ℕ
  last_count n [] = n
  last_count n (total_hours d ∷ cs) = last_count n cs
  last_count n (num_sessions m ∷ cs) = last_count (some m) cs
  last_count n (sister_name s ∷ cs) = last_count n cs
  last_count n (session k i o ∷ cs) = last_count n cs
  last_count n (other i o ∷ cs) = last_count n cs

  -- The second loop, where numSessions is not nil: `recording`, and `in`.
  abbrev pub find_running : ℕ → Bool → ℕ → List (Child D) → Bool × ℕ
  find_running n r i [] = (r, i)
  find_running n r i (total_hours d ∷ cs) = find_running n r i cs
  find_running n r i (num_sessions m ∷ cs) = find_running n r i cs
  find_running n r i (sister_name s ∷ cs) = find_running n r i cs
  find_running n r i (session k j o ∷ cs) =
      find_running n (if k == n + 1 then true else r) (if k == n + 1 then in_or j i else i) cs
  find_running n r i (other j o ∷ cs) = find_running n r i cs

  -- With no child the second loop makes no round; with one, it unwraps numSessions.
  abbrev pub look_for_running : Option ℕ → Bool → List (Child D) → Option (Bool × ℕ)
  look_for_running n r [] = some (r, 0)
  look_for_running none r (c ∷ cs) = none
  look_for_running (some n) r (c ∷ cs) = some (find_running n r 0 (c ∷ cs))

  -- The observer that viewDidLoad registers.
  abbrev pub observe_value : List (Child D) → ℕ → Screen → Option Screen
  observe_value cs now s = elim (look_for_running (last_count none cs) s.recording cs) [
    | none ↦ none
    | some (r, i) ↦ some (update_screen r i now (record s { recording = r }))
  ]

  -- The writes of dismissSession.
  abbrev pub dismiss_session : ℕ → List (Write D)
  dismiss_session n = remove_session (n + 1) ∷ []

  -- The first closure of startRecording, where numSessions is not nil.
  abbrev pub on_first : Bool → ℕ → Option D → ℕ → Screen → Reply D
  on_first true n total now s = record {
    screen = update_screen s.recording now now s;
    writes = set_in (n + 1) now ∷ [];
    task = none;
  }
  on_first false n total now s = record {
    screen = update_screen s.recording 0 now s;
    writes = [];
    task = some (second_value n total);
  }

  abbrev pub on_first_value : View D → ℕ → Screen → Option (Reply D)
  on_first_value v now s = elim v.count [
    | none ↦ none
    | some n ↦ some (on_first s.recording n v.total now s)
  ]

  -- The second closure, with the `in` of the child numSessions + 1.
  abbrev pub on_second : ℕ → Option D → ℕ → ℕ → Screen → Reply D
  on_second n total in_time now s =
      if ltb 1800000 (now - in_time)
      then record { screen = s; writes = []; task = some (confirm (now - in_time) n now total) }
      else record { screen = s; writes = dismiss_session n; task = none }

  abbrev pub on_second_value : ℕ → Option D → View D → ℕ → Screen → Option (Reply D)
  on_second_value n total v now s = elim (v.in_at (n + 1)) [
    | none ↦ none
    | some i ↦ some (on_second n total i now s)
  ]

module _ (f : Doubles) (fmt : Format) where
  open f use {Double, add, of_tenths}

  -- The writes of recordSession.
  abbrev pub record_session : ℕ → ℕ → ℕ → Double → List (Write Double)
  record_session interval n out total =
      set_count (n + 1)
      ∷ set_out (n + 1) out
      ∷ set_total (add total (of_tenths (fmt.tenths interval)))
      ∷ []

  -- The handlers of the alert's two buttons: "Yes" is `true`.
  abbrev pub on_answer : Bool → ℕ → ℕ → ℕ → Option Double → Screen → Option (Reply Double)
  on_answer true interval n out none s = none
  on_answer true interval n out (some total) s =
      some (record { screen = s; writes = record_session interval n out total; task = none })
  on_answer false interval n out total s =
      some (record { screen = s; writes = dismiss_session n; task = none })
