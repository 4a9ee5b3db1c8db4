-- ===== src/App/Thresholds.antt =====
-- HomeFragment.java against RecordViewController.swift: which durations are offered for recording.
use study_hours.App.Android.Stopwatch.{Popup, offer, too_short, popup_of}
use study_hours.App.Ios.Record.{on_second, Screen, Task}
use study_hours.Common.{
  ℕ, ◌-◌, ◌≡◌, ◌≢◌, ◌≤◌, ◌<◌, ◌↔◌, Bool, true, false, Option, none, some, arith,
}

-- Whether the app goes on to ask.
abbrev pub asks : {D : Type 0} → Option (Task D) → Bool
asks none = false
asks (some t) = true

abbrev pub offers : Popup → Bool
offers (offer d) = true
offers too_short = false

-- On the same check-in and check-out times, the Android app offers to submit exactly the sessions
-- of at least 30 minutes, and the iOS app asks to record exactly those of more than 30 minutes; so
-- they decide alike unless the session lasted exactly 30 minutes, which the iOS app does not ask
-- for.
pub offers-asks :
    {D : Type 0} (n in_time now : ℕ) (total : Option D) (s : Screen)
    → ((offers (popup_of (now - in_time)) ≡ true) ↔ (1800000 ≤ now - in_time))
      × ((asks (on_second n total in_time now s).task ≡ true) ↔ (1800000 < now - in_time))
      × ((offers (popup_of (now - in_time)) ≡ asks (on_second n total in_time now s).task)
          ↔ (now - in_time ≢ 1800000))
offers-asks n in_time now total s = (ground arith, ground arith, ground arith)
