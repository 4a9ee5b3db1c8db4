-- ===== src/App/Examples.antt =====
-- The two apps on concrete input, over the database of one node.
use study_hours.App.Android.SignInScreen.{
  Activity, creating, signing_in, click_create, click_sign_in, on_complete,
}
use study_hours.App.Android.Waiting.{IsAnswered, stuck, stuck-click_create}
use study_hours.App.Android.Accounts.{validate_form, Form, code_of, create_account, crashed}
use study_hours.App.Android.Rounds.{Round, play_all, recorded_all, IsSettled}
use study_hours.App.Android.Stopwatch.{Clock, StudySession, new_fragment}
use study_hours.App.Android.Submit.{submit}
use study_hours.App.Bounds.{IsCounted}
use study_hours.App.Database.{view, write_all}
use study_hours.App.Ios.Login.{sign_up}
use study_hours.App.Ios.Phone.{Event, press, value, answer, observed, run}
use study_hours.App.Ios.Protocol.{idle, advance_all, minutes_all}
use study_hours.App.Ios.Invariant.{IsHandled}
use study_hours.App.Ios.Record.{initial, on_second}
use study_hours.App.Ledger.{empty}
use study_hours.App.NewAccount.{
  writes_of, android_admin, ios_admin, has_integer, expected_admin, admin_value-admin_post,
  create_account-sign_up, play_all-create_account, submit-create_account,
}
use study_hours.App.Sample.{tenth_doubles, nearest_tenths}
use study_hours.App.SampleDatabase.{sample_database, nothing}
use study_hours.App.SignUp.{no_node, run-sign_up}
use study_hours.App.Text.{
  Text, pos, negsuc, read_integer, read_digits, magnitude, positive, negative,
}
use study_hours.App.Thresholds.{offers, asks, offers-asks}
use study_hours.App.Android.Stopwatch.{popup_of}
use study_hours.Common.{
  ℕ, ◌+◌, ◌-◌, ◌≤◌, ◌<◌, ◌≡◌, ◌≢◌, ◌↔◌, refl, Bool, Option, true, false, not, none, some, List, [],
  ◌∷◌, arith,
}

-- `42`, `-7` and `4x`.
read_42 : read_integer (52 ∷ 50 ∷ []) ≡ some (pos 42)
unfolding read_integer magnitude read_digits positive
read_42 = refl

read_minus_7 : read_integer (45 ∷ 55 ∷ []) ≡ some (negsuc 6)
unfolding read_integer magnitude read_digits negative
read_minus_7 = refl

read_4x : read_integer (52 ∷ 120 ∷ []) ≡ none
unfolding read_integer magnitude read_digits positive
read_4x = refl

-- `Ann`, and the code `42`.
abbrev ann : Text
ann = 65 ∷ 110 ∷ 110 ∷ []

abbrev code_42 : Text
code_42 = 52 ∷ 50 ∷ []

abbrev code_4x : Text
code_4x = 52 ∷ 120 ∷ []

-- An hour and a half that is recorded, and ten minutes that are not.
abbrev day : List (Event × ℕ)
day =
    (observed, 500)
    ∷ (press, 1000)
    ∷ (value, 1000)
    ∷ (observed, 1000)
    ∷ (press, 5401000)
    ∷ (value, 5401000)
    ∷ (value, 5401000)
    ∷ (answer true, 5401500)
    ∷ (press, 6000000)
    ∷ (value, 6000000)
    ∷ (press, 6600000)
    ∷ (value, 6600000)
    ∷ (value, 6600000)
    ∷ []

day_ledger : (advance_all nearest_tenths.tenths day (idle, empty)).1 ≡ record {
  entries = record { in_time = 1000; out_time = 5401000; tenths = 15 } ∷ [];
  running = none;
}
day_ledger = refl

run-sign_up_example :
    IsHandled tenth_doubles nearest_tenths sample_database ann
      (advance_all nearest_tenths.tenths day (idle, empty))
      (minutes_all nearest_tenths.tenths day (idle, empty) 0)
      (run tenth_doubles nearest_tenths sample_database day (record {
        screen = initial;
        task = none;
        state = write_all sample_database (sign_up tenth_doubles true code_42 ann).hours nothing;
      }))
    × IsCounted (advance_all nearest_tenths.tenths day (idle, empty)).1.entries
run-sign_up_example =
    run-sign_up tenth_doubles nearest_tenths sample_database code_42 ann nothing day

abbrev form_42 : Form
form_42 = record {
  email = 97 ∷ 64 ∷ 98 ∷ [];
  password = 115 ∷ 101 ∷ 99 ∷ 114 ∷ 101 ∷ 116 ∷ [];
  display_name = ann;
  admin_code = code_42;
}

abbrev form_4x : Form
form_4x = record form_42 { admin_code = code_4x }

code_of-form_42 : code_of form_42.admin_code ≡ some (pos 42)
unfolding read_integer magnitude read_digits positive
code_of-form_42 = refl

code_of-form_4x : code_of form_4x.admin_code ≡ none
unfolding read_integer magnitude read_digits positive
code_of-form_4x = refl

abbrev at : ℕ → Clock
at t = record { wall = 1000 + t; elapsed = t }

-- An hour with a rotation in it, submitted; and a short session.
abbrev rounds : List Round
rounds =
    record {
      start = at 1000;
      recreations = at 2000 ∷ [];
      stop = at 3601000;
      submits = true;
      null_runs = 1;
      afterwards = at 3602000 ∷ [];
    }
    ∷ record {
      start = at 4000000;
      recreations = [];
      stop = at 4600000;
      submits = true;
      null_runs = 0;
      afterwards = [];
    }
    ∷ []

play_all-create_account_example :
    IsSettled tenth_doubles nearest_tenths sample_database ann empty
      (recorded_all nearest_tenths.tenths rounds empty)
      (play_all tenth_doubles nearest_tenths sample_database rounds
        (new_fragment (at 0))
        (write_all sample_database (writes_of (create_account tenth_doubles form_42 true)) nothing))
    × IsCounted (recorded_all nearest_tenths.tenths rounds empty).entries
play_all-create_account_example =
    play_all-create_account tenth_doubles nearest_tenths sample_database form_42 (pos 42) nothing
      (at 0) rounds (refl, omega arith) code_of-form_42 refl

create_account-sign_up_example :
    view sample_database
      (write_all sample_database (writes_of (create_account tenth_doubles form_42 true)) nothing)
    ≡ view sample_database
        (write_all sample_database (sign_up tenth_doubles true code_42 ann).hours nothing)
create_account-sign_up_example =
    create_account-sign_up tenth_doubles nearest_tenths sample_database form_42 (pos 42) nothing
      (refl, omega arith) code_of-form_42 refl

abbrev hour : StudySession
hour = record { in_time = 1000; out_time = 3601000 }

submit-create_account_example :
    (create_account tenth_doubles form_4x true ≡ crashed)
    × (view sample_database (
          submit tenth_doubles nearest_tenths sample_database 3600000 hour (some 3 ∷ []) (
            write_all sample_database
              (writes_of (create_account tenth_doubles form_4x true))
              nothing))
        ≡ no_node)
submit-create_account_example =
    submit-create_account tenth_doubles nearest_tenths sample_database form_4x nothing 3600000 hour
      (some 3 ∷ []) (refl, omega arith) code_of-form_4x refl

admin_value-admin_post_example :
    (android_admin (create_account tenth_doubles form_42 true) (some (pos 42))
      ≡ expected_admin code_42
          (pos 42)
          (ios_admin (sign_up tenth_doubles true code_42 ann).input (some (pos 42))))
    × (ios_admin (sign_up tenth_doubles true [] ann).input (some (pos 42)) ≡ some false)
    × (android_admin (create_account tenth_doubles form_42 true) none ≡ none)
    × (ios_admin (sign_up tenth_doubles true code_42 ann).input none
        ≡ some (not (has_integer (read_integer code_42))))
admin_value-admin_post_example =
    admin_value-admin_post tenth_doubles form_42 (pos 42) (refl, omega arith)

offers-asks_example :
    ((offers (popup_of (1800500 - 500)) ≡ true) ↔ (1800000 ≤ 1800500 - 500))
    × ((asks {D = ℕ} (on_second 0 (some 7) 500 1800500 initial).task ≡ true)
        ↔ (1800000 < 1800500 - 500))
    × ((offers (popup_of (1800500 - 500))
          ≡ asks {D = ℕ} (on_second 0 (some 7) 500 1800500 initial).task)
        ↔ (1800500 - 500 ≢ 1800000))
offers-asks_example = offers-asks {D = ℕ} 0 500 1800500 (some 7) initial

-- A password of three characters, on the sign-in screen.
abbrev short_form : Form
short_form = record form_42 { password = 97 ∷ 98 ∷ 99 ∷ [] }

abbrev sign_in_screen : Activity
sign_in_screen = record {
  progress_bar = false;
  fields_shown = true;
  signed_in_shown = false;
  verify_enabled = true;
  email_error = true;
  password_error = false;
  current_user = none;
  request = none;
  finished = false;
}

stuck-click_create_example :
    ((stuck (click_create short_form sign_in_screen) ≡ true)
      ↔ ((validate_form short_form ≡ true) × (3 < 6)))
    × (stuck (click_sign_in short_form sign_in_screen) ≡ false)
    × ((r : Option Bool) (b : Activity) → IsAnswered (on_complete signing_in r b))
    × ((b : Activity) → IsAnswered (on_complete (creating short_form) none b))
stuck-click_create_example = stuck-click_create short_form sign_in_screen refl refl
