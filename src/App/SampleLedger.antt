-- ===== src/App/SampleLedger.antt =====
-- A sample node with one recorded session, and one in which another is running.
use study_hours.App.Database.{view}
use study_hours.App.Ledger.{Entry, Ledger, node_of}
use study_hours.App.Node.{set_session, set_count, set_total, set_in}
use study_hours.App.Nodes.{set_session-node_of, check_in-node_of}
use study_hours.App.Sample.{tenth_doubles}
use study_hours.App.SampleDatabase.{Sample, sample_database, nothing, write, view-write}
use study_hours.App.Database.{write_all, view-write_all}
use study_hours.App.Ios.Login.{sign_up}
use study_hours.App.Node.{apply_all, Write}
use study_hours.App.Sample.{nearest_tenths}
use study_hours.App.SignUp.{view-sign_up}
use study_hours.App.Text.{Text}
use study_hours.Common.{ℕ, ◌≡◌, ap, ◌∙◌, true, none, some, List, [], ◌∷◌}

abbrev pub ann : Text
ann = 65 ∷ 110 ∷ 110 ∷ []

abbrev pub hour_entry : Entry
hour_entry = record { in_time = 1000; out_time = 3601000; tenths = 10 }

abbrev pub one_hour : Ledger
one_hour = record { entries = hour_entry ∷ []; running = none }

abbrev pub one_running : Ledger
one_running = record { entries = hour_entry ∷ []; running = some 5000000 }

abbrev pub fresh : Sample
fresh = write_all sample_database (sign_up tenth_doubles true [] ann).hours nothing

abbrev hour_writes : List (Write ℕ)
hour_writes = set_count 1 ∷ set_session 1 1000 3601000 ∷ set_total 10 ∷ []

abbrev pub after_hour : Sample
after_hour = write_all sample_database hour_writes fresh

abbrev pub while_running : Sample
while_running = write (set_in 2 5000000) after_hour

pub view-after_hour : view sample_database after_hour ≡ node_of tenth_doubles ann one_hour
view-after_hour =
    view-write_all sample_database hour_writes fresh
    ∙ ap (λ v. apply_all hour_writes v)
        (view-sign_up tenth_doubles nearest_tenths sample_database [] ann nothing)
    ∙ set_session-node_of tenth_doubles ann (record { entries = []; running = none }) hour_entry

pub view-while_running : view sample_database while_running ≡ node_of tenth_doubles ann one_running
view-while_running =
    view-write (set_in 2 5000000) after_hour
    ∙ ap (λ v. apply_all (set_in 2 5000000 ∷ []) v) view-after_hour
    ∙ check_in-node_of tenth_doubles ann one_hour 5000000
