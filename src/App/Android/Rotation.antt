-- ===== src/App/Android/Rotation.antt =====
-- HomeFragment.java: recreations of the fragment do not disturb the session that is running.
use study_hours.App.Android.Stopwatch.{
  Clock, Fragment, Popup, Event, pressed, recreated, new_session, set_out, popup_of, press,
  recreate, run,
}
use study_hours.Common.{
  ◌-◌, ◌≤◌, ◌≡◌, refl, true, false, ◌&&◌, Option, none, some, List, [], ◌∷◌, arith,
}

-- The stopwatch that the screen is to be: the moment of the check-in while it runs, and the popups
-- that the events are to show.
abbrev pub last_start : List (Event × Clock) → Option Clock → Option Clock
last_start [] r = r
last_start ((pressed, now) ∷ es) none = last_start es (some now)
last_start ((pressed, now) ∷ es) (some c) = last_start es none
last_start ((recreated, now) ∷ es) r = last_start es r

abbrev pub popups_from : List (Event × Clock) → Option Clock → List Popup
popups_from [] r = []
popups_from ((pressed, now) ∷ es) none = popups_from es (some now)
popups_from ((pressed, now) ∷ es) (some c) = popup_of (now.wall - c.wall) ∷ popups_from es none
popups_from ((recreated, now) ∷ es) r = popups_from es r

-- The fragment of a stopwatch. While it runs, the chronometer counts from the check-in's moment.
abbrev pub IsWatch : Option Clock → Fragment → Type 0
IsWatch none f =
    (f.checked ≡ false) × (f.ticking ≡ false) × ((f.inherited && f.was_running) ≡ false)
IsWatch (some c) f =
    (f.checked ≡ true)
    × (f.ticking ≡ true)
    × (f.inherited ≡ false)
    × (f.base ≡ c.elapsed)
    × (f.check_in ≡ c.wall)
    × (f.study_session ≡ some (new_session c))

pub start-IsWatch :
    (now : Clock) (f : Fragment)
    → IsWatch none f
    → (g : Fragment) × (press now f ≡ some (g, none)) × IsWatch (some now) g
start-IsWatch now f h = (
  record f {
    base = now.elapsed;
    study_session = some (new_session now);
    check_in = now.wall;
    ticking = true;
    inherited = false;
    checked = true;
  },
  ground (arith, h),
  ground (arith, h),
)

pub stop-IsWatch :
    (c now : Clock) (f : Fragment)
    → IsWatch (some c) f
    → (g : Fragment) × (press now f ≡ some (g, some (popup_of (now.wall - c.wall))))
      × IsWatch none g
      × (g.study_session ≡ some (set_out now (new_session c)))
stop-IsWatch c now f h = (
  record f {
    ticking = false;
    stop_offset = now.elapsed - f.base;
    study_session = some (set_out now (new_session c));
    inherited = false;
    checked = false;
  },
  ground (arith, h),
  ground (arith, h),
  ground (arith, h),
)

recreate-IsWatch :
    (r : Option Clock) (now : Clock) (f : Fragment) → IsWatch r f → IsWatch r (recreate now f)
recreate-IsWatch none now f h = ground (arith, h)
recreate-IsWatch (some c) now f h = ground (arith, h)

abbrev RunsTo : Option (Fragment × List Popup) → List Popup → Option Clock → Type 0
RunsTo o ps r = (g : Fragment) × (o ≡ some (g, ps)) × IsWatch r g

-- From a fragment of a stopwatch, for any presses and recreations at any moments, the run comes to
-- its end with no crash, and the fragment is the one of the stopwatch there: every check-out
-- judges the time since its own check-in, however often the fragment was made anew between, and
-- the chronometer and the session to submit still count from that check-in.
pub run-IsWatch :
    (es : List (Event × Clock)) (r : Option Clock) (f : Fragment)
    → IsWatch r f
    → (g : Fragment) × (run es f ≡ some (g, popups_from es r)) × IsWatch (last_start es r) g
run-IsWatch [] r f h = (f, refl, h)
run-IsWatch ((pressed, now) ∷ es) none f h =
    let s : (g : Fragment) × (press now f ≡ some (g, none)) × IsWatch (some now) g =
      start-IsWatch now f h in
    let rest : RunsTo (run es s.0) (popups_from es (some now)) (last_start es (some now)) =
      run-IsWatch es (some now) s.0 s.2 in
    (rest.0, rw (s.1, run) rest.1, rest.2)
run-IsWatch ((pressed, now) ∷ es) (some c) f h =
    let p : Popup = popup_of (now.wall - c.wall) in
    let s : (g : Fragment) × (press now f ≡ some (g, some p))
        × IsWatch none g
        × (g.study_session ≡ some (set_out now (new_session c))) =
      stop-IsWatch c now f h in
    let rest : RunsTo (run es s.0) (popups_from es none) (last_start es none) =
      run-IsWatch es none s.0 s.2 in
    (rest.0, rw (s.1, run) (rw (rest.1, run) refl), rest.2)
run-IsWatch ((recreated, now) ∷ es) r f h =
    run-IsWatch es r (recreate now f) (recreate-IsWatch r now f h)

-- A fragment whose button is off, made anew at a moment not before its stop offset, shows that
-- offset on the chronometer and keeps it, also when it is made anew again.
pub recreate-stop_offset :
    (now later : Clock) (f : Fragment)
    → f.checked ≡ false
    → f.stop_offset ≤ now.elapsed
    → f.stop_offset ≤ later.elapsed
    → (now.elapsed - (recreate now f).base ≡ f.stop_offset)
      × (later.elapsed - (recreate later (recreate now f)).base ≡ f.stop_offset)
recreate-stop_offset now later f h p q = (ground (arith, h), ground (arith, h))
