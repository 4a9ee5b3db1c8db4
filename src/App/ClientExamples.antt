-- ===== src/App/ClientExamples.antt =====
-- The screens of the two apps on a sample node.
use study_hours.App.Android.History.{on_data_change}
use study_hours.App.Android.Opened.{last_with, on_item_click-read_users}
use study_hours.App.Android.Races.{run_handlers-press, submit-stale}
use study_hours.App.Android.Rotation.{
  IsWatch, last_start, popups_from, run-IsWatch, recreate-stop_offset,
}
use study_hours.App.Android.Shown.{on_data_change-node_of}
use study_hours.App.Android.Sisters.{User, read_users, on_item_click}
use study_hours.App.Android.Stopwatch as Watch
use study_hours.App.Android.Stopwatch.{
  Clock, StudySession, Fragment, Popup, pressed, recreated, new_fragment, press as press_button,
  recreate,
}
use study_hours.App.Android.Submission.{submit-node_of}
use study_hours.App.Android.Submit.{submit, run_handlers}
use study_hours.App.Database.{view}
use study_hours.App.Ios.History.{History, no_history, on_value, number_of_rows, cell_for_row}
use study_hours.App.Ios.Phone.{Phone, press, value, observed, respond, run}
use study_hours.App.Ios.Races.{on_answer-check_out, run-ended}
use study_hours.App.Ios.Record.{Screen, initial, on_answer}
use study_hours.App.Ios.Shown.{on_value-node_of}
use study_hours.App.Ledger.{node_of, check_out, sum_from, empty}
use study_hours.App.Listing.{numbered, sessions_of}
use study_hours.App.Sample.{tenth_doubles, nearest_tenths}
use study_hours.App.SampleDatabase.{Sample, sample_database, snapshot, snapshot-IsNode}
use study_hours.App.SampleLedger.{
  ann, hour_entry, one_hour, one_running, after_hour, while_running, view-after_hour,
  view-while_running,
}
use study_hours.App.Steps.{entry_of}
use study_hours.App.Text.{Text}
use study_hours.Common.{
  ◌/◌, ℕ, ◌+◌, ◌-◌, ◌≡◌, refl, true, none, some, List, [], ◌∷◌, length, get_elem?, arith,
}

abbrev at : ℕ → Clock
at t = record { wall = 1000 + t; elapsed = t }

abbrev rotations : List (Watch.Event × Clock)
rotations =
    (recreated, at 100)
    ∷ (pressed, at 1000)
    ∷ (recreated, at 2000)
    ∷ (recreated, at 3000)
    ∷ (pressed, at 1801000)
    ∷ []

run-IsWatch_example :
    (g : Fragment) × (Watch.run rotations (new_fragment (at 0))
      ≡ some (g, popups_from rotations none))
    × IsWatch (last_start rotations none) g
run-IsWatch_example = run-IsWatch rotations none (new_fragment (at 0)) (refl, refl, refl)

rotations_popups : popups_from rotations none ≡ Popup.offer 1800000 ∷ []
rotations_popups = refl

abbrev stopped : Fragment
stopped = record (new_fragment (at 0)) { stop_offset = 700; base = 5 }

recreate-stop_offset_example :
    (9000 - (recreate (at 9000) stopped).base ≡ 700)
    × (9500 - (recreate (at 9500) (recreate (at 9000) stopped)).base ≡ 700)
recreate-stop_offset_example =
    recreate-stop_offset (at 9000) (at 9500) stopped refl (omega arith) (omega arith)

abbrev second_session : StudySession
second_session = record { in_time = 4000000; out_time = 5900000 }

submit-node_of_example :
    view sample_database (
      submit tenth_doubles nearest_tenths sample_database 1900000 second_session
        (none ∷ some 1 ∷ [])
        while_running)
    ≡ node_of tenth_doubles ann (
        check_out
          (record { in_time = 4000000; out_time = 5900000; tenths = nearest_tenths.tenths 1900000 })
          one_running)
submit-node_of_example =
    submit-node_of tenth_doubles nearest_tenths sample_database ann one_running 1900000
      second_session (none ∷ some 1 ∷ []) while_running view-while_running (refl, tt)

-- The screen that showed nothing, when an hour is recorded and a session running.
on_value-node_of_example :
    (h : History ℕ) × (on_value (snapshot while_running) no_history ≡ some h)
    × (h.total_text ≡ some (sum_from tenth_doubles 0 one_running.entries))
    × (number_of_rows h ≡ length one_running.entries)
    × ((row : ℕ) → cell_for_row row h ≡ get_elem? (sessions_of one_running.entries) row)
    × (h.sessions ≡ numbered 1 one_running.entries)
on_value-node_of_example =
    on_value-node_of tenth_doubles ann [] (hour_entry ∷ []) (some 5000000) (snapshot while_running)
      no_history (snapshot-IsNode while_running) tt view-while_running (omega arith, tt) refl

-- A reading of the total that rounds to whole hours.
abbrev to_whole : ℕ → ℕ
to_whole tenths = tenths / 10

on_data_change-node_of_example :
    on_data_change to_whole (snapshot after_hour)
    ≡ some
        (some (to_whole (sum_from tenth_doubles 0 one_hour.entries)), sessions_of one_hour.entries)
on_data_change-node_of_example =
    on_data_change-node_of tenth_doubles ann to_whole one_hour (snapshot after_hour)
      (snapshot-IsNode after_hour) tt view-after_hour

running_crash : on_data_change to_whole (snapshot while_running) ≡ none
running_crash = refl

abbrev running : Fragment
running = Watch.on_checked (at 3000) (record (new_fragment (at 0)) { checked = true })

run_handlers-press_example :
    (h later : Fragment) × (early late : Sample) × (press_button (at 1903000) running
      ≡ some (h, some (Popup.offer (1904000 - 4000))))
    × (press_button (at 9000000) h ≡ some (later, none))
    × (run_handlers tenth_doubles nearest_tenths sample_database
          (1904000 - 4000)
          (none ∷ [])
          h
          after_hour
        ≡ some early)
    × (view sample_database early
        ≡ node_of tenth_doubles ann
            (check_out (entry_of nearest_tenths.tenths 4000 1904000) one_hour))
    × (run_handlers tenth_doubles nearest_tenths sample_database
          (1904000 - 4000)
          (none ∷ [])
          later
          after_hour
        ≡ some late)
    × (view sample_database late
        ≡ node_of tenth_doubles ann (
            check_out
              (record {
                in_time = 9001000;
                out_time = 0;
                tenths = nearest_tenths.tenths (1904000 - 4000);
              })
              one_hour))
run_handlers-press_example =
    run_handlers-press tenth_doubles nearest_tenths sample_database ann one_hour (at 3000)
      (at 1903000) (at 9000000) running (none ∷ []) after_hour (refl, refl, refl, refl, refl, refl)
      (omega arith) view-after_hour tt

abbrev stale : Sample
stale =
    submit tenth_doubles nearest_tenths sample_database 1900000 second_session (some 0 ∷ [])
      after_hour

submit-stale_example :
    ((view sample_database stale).count ≡ some 2)
    × ((view sample_database stale).in_at 1 ≡ some 4000000)
    × ((view sample_database stale).out_at 1 ≡ some 5900000)
submit-stale_example =
    submit-stale tenth_doubles nearest_tenths sample_database ann one_hour 0 1900000 second_session
      after_hour view-after_hour (omega arith)

on_answer-check_out_example :
    (p : Phone ℕ Sample) × (respond tenth_doubles nearest_tenths sample_database
        (on_answer tenth_doubles nearest_tenths true 2000000 0 3700000 (some 0) initial)
        after_hour
      ≡ some p)
    × ((view sample_database p.state).count ≡ some 1)
    × ((view sample_database p.state).total ≡ some (0 + nearest_tenths.tenths 2000000))
    × ((view sample_database p.state).in_at 1 ≡ some 1000)
    × ((view sample_database p.state).out_at 1 ≡ some 3700000)
on_answer-check_out_example =
    on_answer-check_out tenth_doubles nearest_tenths sample_database ann empty hour_entry 2000000
      3700000 after_hour initial view-after_hour

abbrev left_on : Screen
left_on = record initial { recording = true; stop_title = true }

run-ended_example :
    run tenth_doubles nearest_tenths sample_database
      ((observed, 1) ∷ (press, 2) ∷ (value, 3) ∷ (value, 4) ∷ [])
      (record { screen = left_on; task = none; state = after_hour })
    ≡ none
run-ended_example =
    run-ended tenth_doubles nearest_tenths sample_database ann one_hour after_hour left_on 1 2 3 4
      view-after_hour refl refl

abbrev user : Text → User ℕ
user uid = record { uid = uid; node = node_of tenth_doubles ann one_hour }

-- Two users with one name and one total.
abbrev users : List (User ℕ)
users = user (49 ∷ []) ∷ user (50 ∷ []) ∷ []

abbrev print_tenths : ℕ → Text
print_tenths t = t ∷ []

on_item_click-read_users_example :
    (m : List (Text × Text)) × (read_users print_tenths users [] ≡ some m)
    × ((row : Text)
        → on_item_click row m ≡ last_with print_tenths row users ((10, refl), ((10, refl), tt)))
on_item_click-read_users_example =
    on_item_click-read_users print_tenths users ((10, refl), ((10, refl), tt))
