-- ===== src/App/Android/Rounds.antt =====
-- HomeFragment.java: whole rounds of recording and submitting.
use study_hours.App.Android.Rotation.{IsWatch, run-IsWatch, stop-IsWatch, last_start, popups_from}
use study_hours.App.Android.Stopwatch.{
  Clock, StudySession, Fragment, Popup, Event, pressed, recreated, offer, too_short, popup_of,
  new_session, set_out, run, press,
}
use study_hours.App.Android.Submission.{admits, IsFresh, submit-node_of}
use study_hours.App.Android.Submit.{submit, run_handlers, run_handlers_lem}
use study_hours.App.Database.{Database, Doubles, Format, view}
use study_hours.App.Ledger.{Ledger, node_of, check_out}
use study_hours.App.Steps.{Reach, Reach_trans, here, next, starts, finishes, discards, entry_of}
use study_hours.App.Text.{Text}
use study_hours.Common.{
  ℕ, zero, suc, ◌-◌, ◌≡◌, refl, ap, ◌∙◌, Bool, true, false, ◌&&◌, if◌then◌else◌, Option, none, some,
  List, [], ◌∷◌, length, Option-cases, Bool-cases, inl, inr,
}

-- A check-in, recreations, a check-out, the answer to the offer, if there is one, and more
-- recreations. The numSessions transaction runs on null so many times before it runs on the count.
pub record Round : Type 0 where
  pub start : Clock
  pub recreations : List Clock
  pub stop : Clock
  pub submits : Bool
  pub null_runs : ℕ
  pub afterwards : List Clock

abbrev pub nulls : ℕ → List (Option ℕ)
nulls zero = []
nulls (suc k) = none ∷ nulls k

abbrev pub recreate_all : List Clock → List (Event × Clock)
recreate_all [] = []
recreate_all (c ∷ cs) = (recreated, c) ∷ recreate_all cs

module _ (f : Doubles) (fmt : Format) (db : Database f.Double) where
  open db use {State}

  -- The fragment is made anew, and the node stays.
  abbrev pub wait : List Clock → Fragment → State → Option (Fragment × State)
  wait cs g st = elim (run (recreate_all cs) g) [ none ↦ none | some (h, ps) ↦ some (h, st) ]

  -- A submission is run somewhen before the next check-in. It reads the field of the fragment that
  -- showed the offer, and no recreation changes that one.
  abbrev pub wait_after : List Clock → Fragment → Option State → Option (Fragment × State)
  wait_after cs g none = none
  wait_after cs g (some st) = wait cs g st

  abbrev pub answer :
      Bool → ℕ → List Clock → Option Popup → Fragment → State → Option (Fragment × State)
  answer true k cs (some (offer diff)) g st =
      wait_after cs g (run_handlers f fmt db diff (nulls k) g st)
  answer true k cs (some too_short) g st = wait cs g st
  answer true k cs none g st = wait cs g st
  answer false k cs p g st = wait cs g st

  abbrev pub check_out_and_answer : Round → Fragment → State → Option (Fragment × State)
  check_out_and_answer r g st = elim (press r.stop g) [
    | none ↦ none
    | some (h, p) ↦ answer r.submits r.null_runs r.afterwards p h st
  ]

  abbrev pub play : Round → Fragment → State → Option (Fragment × State)
  play r g st = elim (run ((pressed, r.start) ∷ recreate_all r.recreations) g) [
    | none ↦ none
    | some (h, ps) ↦ check_out_and_answer r h st
  ]

  abbrev pub play_all : List Round → Fragment → State → Option (Fragment × State)
  play_all [] g st = some (g, st)
  play_all (r ∷ rs) g st = elim (play r g st) [ none ↦ none | some (h, st') ↦ play_all rs h st' ]

-- What a round makes of the ledger, and what rounds make of it.
abbrev pub recorded : (ℕ → ℕ) → Round → Ledger → Ledger
recorded tenths r l =
    if r.submits && admits (r.stop.wall - r.start.wall)
    then check_out (entry_of tenths r.start.wall r.stop.wall) l
    else l

abbrev pub recorded_all : (ℕ → ℕ) → List Round → Ledger → Ledger
recorded_all tenths [] l = l
recorded_all tenths (r ∷ rs) l = recorded_all tenths rs (recorded tenths r l)

-- The ledger after a session is appended to it.
pub append-Reach :
    {tenths : ℕ → ℕ} {l m : Ledger} (i o : ℕ)
    → admits (o - i) ≡ true
    → Reach admits tenths l m
    → Reach admits tenths l (check_out (entry_of tenths i o) m)
append-Reach {tenths} {l} {m} i o a r = elim (Option-cases m.running) [
  | inl e ↦ next (next r (starts i e refl)) (finishes i o refl a refl)
  | inr (j, e) ↦
      next (next (next r (discards j e refl)) (starts i refl refl)) (finishes i o refl a refl)
]

nulls-IsFresh : (n k : ℕ) → IsFresh n (nulls k)
nulls-IsFresh n zero = tt
nulls-IsFresh n (suc k) = nulls-IsFresh n k

start_recreate : (cs : List Clock) (r : Option Clock) → last_start (recreate_all cs) r ≡ r
start_recreate [] r = refl
start_recreate (c ∷ cs) r = start_recreate cs r

module _ (f : Doubles) (fmt : Format) (db : Database f.Double) (who : Text) where
  open db use {State}

  -- A stopped fragment over the node of the ledger `m`, which is reached from `l`.
  abbrev pub IsSettled : Ledger → Ledger → Option (Fragment × State) → Type 0
  IsSettled l m o =
      (g : Fragment) × (st : State) × (o ≡ some (g, st))
      × IsWatch none g
      × Reach admits fmt.tenths l m
      × (view db st ≡ node_of f who m)

  wait-IsSettled :
      (l m : Ledger) (cs : List Clock) (g : Fragment) (st : State)
      → IsWatch none g
      → Reach admits fmt.tenths l m
      → view db st ≡ node_of f who m
      → IsSettled l m (wait f fmt db cs g st)
  wait-IsSettled l m cs g st w r v =
      let s : (h : Fragment) × (run (recreate_all cs) g
            ≡ some (h, popups_from (recreate_all cs) none))
          × IsWatch (last_start (recreate_all cs) none) h =
        run-IsWatch (recreate_all cs) none g w in
      (s.0, st, rw (s.1, wait) refl, rw (start_recreate cs none) at s.2, r, v)

  answer-IsSettled :
      (l : Ledger) (c now : Clock) (b : Bool) (k : ℕ) (cs : List Clock) (g : Fragment) (st : State)
      → IsWatch none g
      → g.study_session ≡ some (set_out now (new_session c))
      → view db st ≡ node_of f who l
      → IsSettled l
          (if b && admits (now.wall - c.wall)
            then check_out (entry_of fmt.tenths c.wall now.wall) l
            else l)
          (answer f fmt db b k cs (some (popup_of (now.wall - c.wall))) g st)
  answer-IsSettled l c now false k cs g st w e v = wait-IsSettled l l cs g st w here v
  answer-IsSettled l c now true k cs g st w e v = elim (Bool-cases (admits (now.wall - c.wall))) [
    | inl long ↦
        let s : StudySession = set_out now (new_session c) in
        let after : State = submit f fmt db (now.wall - c.wall) s (nulls k) st in
        let m : Ledger = check_out (entry_of fmt.tenths c.wall now.wall) l in
        let a : IsSettled l m (wait f fmt db cs g after) =
          wait-IsSettled l m cs g after w (append-Reach c.wall now.wall long here) (
            submit-node_of f fmt db who l (now.wall - c.wall) s (nulls k) st v
              (nulls-IsFresh (length l.entries) k)) in
        rw long (
          a.0,
          a.1,
          ap (wait_after f fmt db cs g)
                (run_handlers_lem f fmt db (now.wall - c.wall) (nulls k) s g st e)
              ∙ a.2,
          a.3,
          a.4,
          a.5,
        )
    | inr short ↦ rw short (wait-IsSettled l l cs g st w here v)
  ]

  check_out-IsSettled :
      (l : Ledger) (r : Round) (g : Fragment) (st : State)
      → IsWatch (some r.start) g
      → view db st ≡ node_of f who l
      → IsSettled l (recorded fmt.tenths r l) (check_out_and_answer f fmt db r g st)
  check_out-IsSettled l r g st w v =
      let s : (h : Fragment) × (press r.stop g
            ≡ some (h, some (popup_of (r.stop.wall - r.start.wall))))
          × IsWatch none h
          × (h.study_session ≡ some (set_out r.stop (new_session r.start))) =
        stop-IsWatch r.start r.stop g w in
      let a : IsSettled l (recorded fmt.tenths r l) (
          answer f fmt db r.submits r.null_runs r.afterwards
            (some (popup_of (r.stop.wall - r.start.wall))) s.0 st) =
        answer-IsSettled l r.start r.stop r.submits r.null_runs r.afterwards s.0 st s.2 s.3 v in
      (a.0, a.1, rw (s.1, check_out_and_answer) a.2, a.3, a.4, a.5)

  play-IsSettled :
      (l : Ledger) (r : Round) (g : Fragment) (st : State)
      → IsWatch none g
      → view db st ≡ node_of f who l
      → IsSettled l (recorded fmt.tenths r l) (play f fmt db r g st)
  play-IsSettled l r g st w v =
      let es : List (Event × Clock) = (pressed, r.start) ∷ recreate_all r.recreations in
      let s : (h : Fragment) × (run es g ≡ some (h, popups_from es none))
          × IsWatch (last_start es none) h =
        run-IsWatch es none g w in
      let running : IsWatch (some r.start) s.0 =
        rw (start_recreate r.recreations (some r.start)) at s.2 in
      let a : IsSettled l (recorded fmt.tenths r l) (check_out_and_answer f fmt db r s.0 st) =
        check_out-IsSettled l r s.0 st running v in
      (a.0, a.1, rw (s.1, play) a.2, a.3, a.4, a.5)

  -- From a stopped fragment over the node of a ledger, any rounds, with any recreations of the
  -- fragment, answers and runs of the transaction on null, where each submission's transactions run
  -- before the next check-in, come to their end with no crash: the
  -- fragment is stopped, and the node stands for the ledger that the rounds make, which check-ins,
  -- check-outs of at least 30 minutes and removals reach from the first one.
  pub play_all-IsSettled :
      (rs : List Round) (l : Ledger) (g : Fragment) (st : State)
      → IsWatch none g
      → view db st ≡ node_of f who l
      → IsSettled l (recorded_all fmt.tenths rs l) (play_all f fmt db rs g st)
  play_all-IsSettled [] l g st w v = (g, st, refl, w, here, v)
  play_all-IsSettled (r ∷ rs) l g st w v =
      let m : Ledger = recorded fmt.tenths r l in
      let a : IsSettled l m (play f fmt db r g st) = play-IsSettled l r g st w v in
      let rest : IsSettled m (recorded_all fmt.tenths rs m) (play_all f fmt db rs a.0 a.1) =
        play_all-IsSettled rs m a.0 a.1 a.3 a.5 in
      (rest.0, rest.1, rw (a.2, play_all) rest.2, rest.3, Reach_trans a.4 rest.4, rest.5)
