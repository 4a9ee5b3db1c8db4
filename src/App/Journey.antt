-- ===== src/App/Journey.antt =====
-- Both apps on one account: RecordViewController.swift, then HomeFragment.java, then the list of
-- ViewController.swift. Each app has a formatting of the hours of its own.
use study_hours.App.Android.Rounds.{Round, play_all, recorded_all, IsSettled, play_all-IsSettled}
use study_hours.App.Android.Stopwatch.{Clock, Fragment, new_fragment}
use study_hours.App.Android.Submission.{admits}
use study_hours.App.Bounds.{IsLong}
use study_hours.App.Database.{Database, Doubles, Format, write_all}
use study_hours.App.Ios.History.{History, no_history, on_value, number_of_rows, cell_for_row}
use study_hours.App.Ios.Invariant.{IsHandled}
use study_hours.App.Ios.Login.{sign_up}
use study_hours.App.Ios.Phone.{Phone, Event, run}
use study_hours.App.Ios.Protocol.{idle, advance_all, minutes_all}
use study_hours.App.Ios.Record.{initial}
use study_hours.App.Ios.Shown.{IsOut, on_value-node_of}
use study_hours.App.Ledger.{Entry, Ledger, empty, sum_from}
use study_hours.App.Listing.{numbered, sessions_of}
use study_hours.App.Node.{IsPlain}
use study_hours.App.SignUp.{run-sign_up}
use study_hours.App.Steps.{entry_of, Reach-All}
use study_hours.App.Text.{Text}
use study_hours.Common.{
  ℕ, ◌-◌, ◌≤◌, ◌≡◌, refl, true, none, some, List, [], ◌∷◌, length, get_elem?, All, arith,
}

admits-long : (d : ℕ) → admits d ≡ true → 1800000 ≤ d
admits-long d h = ground arith

All-IsOut : (es : List Entry) → All IsLong es → All IsOut es
All-IsOut [] h = tt
All-IsOut (e ∷ es) h = (omega (arith, h.0.0), All-IsOut es h.1)

finished-IsOut : (tenths : ℕ → ℕ) (i o : ℕ) → admits (o - i) ≡ true → IsOut (entry_of tenths i o)
finished-IsOut tenths i o a = omega (arith, admits-long (o - i) a)

module _ (f : Doubles) (ios_fmt android_fmt : Format) (db : Database f.Double) where
  open f use {Double, of_tenths}
  open db use {State, snapshot}

  -- Where no other program writes into the nodes: after a sign-up on iOS, any events on the iOS
  -- record screen, but for presses and calls of the observer while an answer is waited for, and then
  -- any rounds on the Android one, where each submission's transactions run before the next
  -- check-in, no app has crashed, and the list of the
  -- iOS app shows the total and, in order, one row for each session of more than 30 minutes that
  -- was confirmed on iOS and each of at least 30 minutes that was submitted on Android, and no other.
  pub on_value-play_all :
      (code who : Text) (s : State) (es : List (Event × ℕ)) (now : Clock) (rs : List Round)
      → ((st : State) → IsPlain (snapshot st))
      → (q : Phone Double State) × (g : Fragment) × (st : State) × (h : History Double) × (run f
            ios_fmt db es
            (record {
              screen = initial;
              task = none;
              state = write_all db (sign_up f true code who).hours s;
            })
          ≡ some q)
        × (play_all f android_fmt db rs (new_fragment now) q.state ≡ some (g, st))
        × (on_value (snapshot st) no_history ≡ some h)
        × (h.total_text
            ≡ some (
                sum_from f
                  (of_tenths 0)
                  (recorded_all android_fmt.tenths rs
                    (advance_all ios_fmt.tenths es (idle, empty)).1).entries))
        × (number_of_rows h
            ≡ length
                (recorded_all android_fmt.tenths rs
                  (advance_all ios_fmt.tenths es (idle, empty)).1).entries)
        × ((row : ℕ)
            → cell_for_row row h
              ≡ get_elem?
                  (sessions_of
                    (recorded_all android_fmt.tenths rs
                      (advance_all ios_fmt.tenths es (idle, empty)).1).entries)
                  row)
  on_value-play_all code who s es now rs plain =
      let l : Ledger = (advance_all ios_fmt.tenths es (idle, empty)).1 in
      let m : Ledger = recorded_all android_fmt.tenths rs l in
      let p : Phone Double State = record {
        screen = initial;
        task = none;
        state = write_all db (sign_up f true code who).hours s;
      } in
      let ios : IsHandled f ios_fmt db who (advance_all ios_fmt.tenths es (idle, empty))
          (minutes_all ios_fmt.tenths es (idle, empty) 0) (run f ios_fmt db es p) =
        (run-sign_up f ios_fmt db code who s es).0 in
      let q : Phone Double State = ios.0 in
      let android : IsSettled f android_fmt db who l m
          (play_all f android_fmt db rs (new_fragment now) q.state) =
        play_all-IsSettled f android_fmt db who rs l (new_fragment now) q.state (refl, refl, refl)
          ios.2.shown in
      let out : All IsOut m.entries =
        Reach-All IsOut (finished-IsOut android_fmt.tenths)
          (All-IsOut l.entries (run-sign_up f ios_fmt db code who s es).1.0) android.4 in
      let listed : (h : History Double) × (on_value (snapshot android.1) no_history ≡ some h)
          × (h.total_text ≡ some (sum_from f (of_tenths 0) m.entries))
          × (number_of_rows h ≡ length m.entries)
          × ((row : ℕ) → cell_for_row row h ≡ get_elem? (sessions_of m.entries) row)
          × (h.sessions ≡ numbered 1 m.entries) =
        on_value-node_of f who [] m.entries m.running (snapshot android.1) no_history
          (db.snapshot_proper android.1) (plain android.1) android.5 out refl in
      (q, android.0, android.1, listed.0, ios.1, android.2, listed.1, listed.2, listed.3, listed.4)
