-- ===== src/App/Ios/Protocol.antt =====
-- What RecordViewController.swift is to do with the ledger, event by event.
use study_hours.App.Ios.Phone.{Event, press, value, answer, observed}
use study_hours.App.Ios.Record.{Task, first_value, second_value, confirm}
use study_hours.App.Ledger.{Ledger, check_in, check_out, give_up}
use study_hours.App.Steps.{entry_of}
use study_hours.Common.{
  ℕ, ◌-◌, ◌/◌, Bool, true, false, Option, none, some, List, [], ◌∷◌, ltb, if◌then◌else◌,
}

-- More than 30 minutes.
abbrev pub admits : ℕ → Bool
admits d = ltb 1800000 d

-- Nothing is under way; the button was pressed; the running session is looked up; the user is asked
-- about a session that ended at a time.
pub data Stage : Type 0 where
  idle : Stage
  requested : Stage
  judging : Stage
  deciding : ℕ → Stage

abbrev pub stage_of : {D : Type 0} → Option (Task D) → Stage
stage_of none = idle
stage_of (some first_value) = requested
stage_of (some (second_value n total)) = judging
stage_of (some (confirm d n out total)) = deciding out

abbrev pub begun : Option ℕ → ℕ → Ledger → Stage × Ledger
begun none now l = (idle, check_in now l)
begun (some t) now l = (judging, l)

abbrev pub judged : Option ℕ → ℕ → Ledger → Stage × Ledger
judged none now l = (judging, l)
judged (some t) now l = if admits (now - t) then (deciding now, l) else (idle, give_up l)

abbrev pub kept : (ℕ → ℕ) → Option ℕ → ℕ → Ledger → Stage × Ledger
kept tenths none out l = (idle, l)
kept tenths (some t) out l = (idle, check_out (entry_of tenths t out) l)

-- An event that does not belong to the stage changes nothing.
abbrev pub advance : (ℕ → ℕ) → Stage → Event → ℕ → Ledger → Stage × Ledger
advance tenths idle press now l = (requested, l)
advance tenths requested value now l = begun l.running now l
advance tenths judging value now l = judged l.running now l
advance tenths (deciding out) (answer true) now l = kept tenths l.running out l
advance tenths (deciding out) (answer false) now l = (idle, give_up l)
advance tenths stage e now l = (stage, l)

abbrev pub advance_all : (ℕ → ℕ) → List (Event × ℕ) → Stage × Ledger → Stage × Ledger
advance_all tenths [] x = x
advance_all tenths ((e, now) ∷ es) (stage, l) = advance_all tenths es (advance tenths stage e now l)

-- The whole minutes since the check-in, if there is one.
abbrev pub minutes_since : Option ℕ → ℕ → ℕ
minutes_since none now = 0
minutes_since (some t) now = (now - t) / 1000 / 60

-- What the label of the minutes is to show after an event, from what it shows before: the observer
-- sets it by its clock, and the answer to a press of the button sets it to 0.
abbrev pub minutes : Stage → Event → ℕ → Ledger → ℕ → ℕ
minutes idle observed now l m = minutes_since l.running now
minutes requested value now l m = 0
minutes stage e now l m = m

abbrev pub minutes_all : (ℕ → ℕ) → List (Event × ℕ) → Stage × Ledger → ℕ → ℕ
minutes_all tenths [] x m = m
minutes_all tenths ((e, now) ∷ es) (stage, l) m =
    minutes_all tenths es (advance tenths stage e now l) (minutes stage e now l m)
