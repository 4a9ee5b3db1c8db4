-- ===== src/App/JourneyExamples.antt =====
-- Both apps on one account of the sample database.
use study_hours.App.Android.Rounds.{Round, play_all, recorded_all}
use study_hours.App.Android.Stopwatch.{Clock, Fragment, new_fragment}
use study_hours.App.Database.{Format, write_all}
use study_hours.App.Ios.History.{History, no_history, on_value, number_of_rows, cell_for_row}
use study_hours.App.Ios.Login.{sign_up}
use study_hours.App.Ios.Phone.{Phone, Event, press, value, answer, run}
use study_hours.App.Ios.Protocol.{idle, advance_all}
use study_hours.App.Ios.Record.{initial}
use study_hours.App.Journey.{on_value-play_all}
use study_hours.App.Ledger.{Ledger, empty, sum_from}
use study_hours.App.Listing.{sessions_of}
use study_hours.App.Node.{Child, IsPlain}
use study_hours.App.Sample.{Slot, tenth_doubles, nearest_tenths, sessions_of as children_of}
use study_hours.App.SampleDatabase.{
  Sample, sample_database, nothing, snapshot, with_total, with_count, with_name,
}
use study_hours.App.SampleLedger.{ann}
use study_hours.App.Text.{Text}
use study_hours.Common.{
  ℕ, ◌+◌, ◌/◌, ◌≡◌, refl, true, Option, none, some, List, [], ◌∷◌, length, get_elem?, arith,
}

children_of-IsPlain : (ss : List Slot) → IsPlain (children_of ss)
children_of-IsPlain [] = tt
children_of-IsPlain (s ∷ ss) = children_of-IsPlain ss

with-IsPlain :
    (t c : Option ℕ) (n : Option Text) (cs : List (Child ℕ))
    → IsPlain cs
    → IsPlain (with_total t (with_count c (with_name n cs)))
with-IsPlain none none none cs h = h
with-IsPlain none none (some n) cs h = h
with-IsPlain none (some c) none cs h = h
with-IsPlain none (some c) (some n) cs h = h
with-IsPlain (some t) none none cs h = h
with-IsPlain (some t) none (some n) cs h = h
with-IsPlain (some t) (some c) none cs h = h
with-IsPlain (some t) (some c) (some n) cs h = h

snapshot-IsPlain : (d : Sample) → IsPlain (snapshot d)
snapshot-IsPlain d =
    with-IsPlain d.total d.count d.name (children_of d.slots) (children_of-IsPlain d.slots)

-- A formatting that rounds a tie down.
abbrev half_down : Format
half_down = record {
  tenths = λ d. (d + 179999) / 360000;
  tenths_upper = λ d. omega arith;
  tenths_lower = λ d. omega arith;
}

-- An hour and a half on the iPhone, and an hour on the Android phone.
abbrev on_ios : List (Event × ℕ)
on_ios =
    (press, 1000)
    ∷ (value, 1000)
    ∷ (press, 5401000)
    ∷ (value, 5401000)
    ∷ (value, 5401000)
    ∷ (answer true, 5401500)
    ∷ []

abbrev at : ℕ → Clock
at t = record { wall = 6000000 + t; elapsed = t }

abbrev on_android : List Round
on_android =
    record {
      start = at 1000;
      recreations = at 2000 ∷ [];
      stop = at 3601000;
      submits = true;
      null_runs = 1;
      afterwards = at 3602000 ∷ [];
    }
    ∷ []

abbrev both_recorded : Ledger
both_recorded =
    recorded_all nearest_tenths.tenths on_android
      (advance_all half_down.tenths on_ios (idle, empty)).1

both_recorded_lem : both_recorded ≡ record {
  entries =
      record { in_time = 1000; out_time = 5401000; tenths = 15 }
      ∷ record { in_time = 6001000; out_time = 9601000; tenths = 10 }
      ∷ [];
  running = none;
}
both_recorded_lem = refl

on_value-play_all_example :
    (q : Phone ℕ Sample) × (g : Fragment) × (st : Sample) × (h : History ℕ) × (run tenth_doubles
        half_down sample_database on_ios
        (record {
          screen = initial;
          task = none;
          state = write_all sample_database (sign_up tenth_doubles true [] ann).hours nothing;
        })
      ≡ some q)
    × (play_all tenth_doubles nearest_tenths sample_database on_android
          (new_fragment (at 0))
          q.state
        ≡ some (g, st))
    × (on_value (snapshot st) no_history ≡ some h)
    × (h.total_text ≡ some (sum_from tenth_doubles 0 both_recorded.entries))
    × (number_of_rows h ≡ length both_recorded.entries)
    × ((row : ℕ) → cell_for_row row h ≡ get_elem? (sessions_of both_recorded.entries) row)
on_value-play_all_example =
    on_value-play_all tenth_doubles half_down nearest_tenths sample_database [] ann nothing on_ios
      (at 0) on_android snapshot-IsPlain
