-- ===== src/App/Android/Submit.antt =====
-- HomeFragment.java: the listener of the submit button, with its two transactions. Firebase may
-- run a transaction's handler on guesses of the value first; the last run is on the value itself.
-- The counts of sessions are below 2 ^ 31, and the default locale writes a decimal point: with a
-- comma, Double.valueOf refuses what DecimalFormat wrote.
use study_hours.App.Android.Stopwatch.{StudySession, Fragment}
use study_hours.App.Database.{Database, Doubles, Format, view, write_all}
use study_hours.App.Node.{
  Child, Write, total_hours, num_sessions, sister_name, session, other, set_total, set_count,
  set_session,
}
use study_hours.Common.{ℕ, ◌+◌, ◌≡◌, refl, Option, none, some, List, [], ◌∷◌, ◌++◌}

-- doTransaction of numSessions on one value: the value that it leaves, and its call of setValue.
-- A null value is left as it is.
abbrev pub count_transaction : {D : Type 0} → StudySession → Option ℕ → Option ℕ × List (Write D)
count_transaction s none = (none, [])
count_transaction s (some n) = (some (n + 1), set_session (n + 1) s.in_time s.out_time ∷ [])

-- The writes of the runs on guesses, of which only the calls of setValue remain.
abbrev pub guess_writes : {D : Type 0} → StudySession → List (Option ℕ) → List (Write D)
guess_writes s [] = []
guess_writes s (g ∷ gs) = (count_transaction s g).1 ++ guess_writes s gs

-- The last run, with the commit.
abbrev pub commit_writes : {D : Type 0} → Option ℕ × List (Write D) → List (Write D)
commit_writes (none, ws) = ws
commit_writes (some n, ws) = ws ++ (set_count n ∷ [])

abbrev pub count_writes : {D : Type 0} → StudySession → List (Option ℕ) → Option ℕ → List (Write D)
count_writes s guesses actual = guess_writes s guesses ++ commit_writes (count_transaction s actual)

module _ (f : Doubles) (fmt : Format) where
  open f use {Double, add, of_tenths}

  -- doTransaction of totalHours, and its commit.
  abbrev pub total_transaction : ℕ → Option Double → Option Double
  total_transaction diff none = none
  total_transaction diff (some t) = some (add t (of_tenths (fmt.tenths diff)))

  abbrev pub total_writes : Option Double → List (Write Double)
  total_writes none = []
  total_writes (some t) = set_total t ∷ []

  module _ (db : Database Double) where
    open db use {State}

    -- onDataChange: the loop over the children of the snapshot; each transaction runs on the node
    -- as it is by then. `diff` is captured at the check-out, the session is the fragment's field.
    abbrev pub on_data_change :
        ℕ → StudySession → List (Option ℕ) → List (Child Double) → State → State
    on_data_change diff s guesses [] st = st
    on_data_change diff s guesses (total_hours d ∷ cs) st =
        on_data_change diff s guesses cs
          (write_all db (total_writes (total_transaction diff (view db st).total)) st)
    on_data_change diff s guesses (num_sessions n ∷ cs) st =
        on_data_change diff s guesses cs
          (write_all db (count_writes s guesses (view db st).count) st)
    on_data_change diff s guesses (sister_name x ∷ cs) st = on_data_change diff s guesses cs st
    on_data_change diff s guesses (session k i o ∷ cs) st = on_data_change diff s guesses cs st
    on_data_change diff s guesses (other i o ∷ cs) st = on_data_change diff s guesses cs st

    -- What a submission does once Firebase runs its listener and its transactions, with no other
    -- write between them.
    abbrev pub submit : ℕ → StudySession → List (Option ℕ) → State → State
    submit diff s guesses st = on_data_change diff s guesses (db.snapshot st) st

    -- The click on the submit button only registers the listener. When the transactions run, at any
    -- time after it, they read the session from the field of the fragment of that click, as the
    -- field is by then. It is not null once a popup was shown.
    abbrev pub run_handlers : ℕ → List (Option ℕ) → Fragment → State → Option State
    run_handlers diff guesses g st = elim g.study_session [
      | none ↦ none
      | some s ↦ some (submit diff s guesses st)
    ]

    pub run_handlers_lem :
        (diff : ℕ) (guesses : List (Option ℕ)) (s : StudySession) (g : Fragment) (st : State)
        → g.study_session ≡ some s
        → run_handlers diff guesses g st ≡ some (submit diff s guesses st)
    run_handlers_lem diff guesses s g st e = rw (e, run_handlers) refl
