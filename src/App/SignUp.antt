-- ===== src/App/SignUp.antt =====
-- LoginViewController.swift and RecordViewController.swift: from a sign-up through any use.
use study_hours.App.Database.{Database, Doubles, Format, view, write_all, view-write_all}
use study_hours.App.Bounds.{IsCounted, Reach-IsCounted}
use study_hours.App.Ios.Invariant.{IsHandled}
use study_hours.App.Ios.Protocol.{Stage, idle, admits, advance_all, minutes_all}
use study_hours.App.Ios.Login.{sign_up}
use study_hours.App.Ios.Phone.{Phone, Event, run}
use study_hours.App.Ios.Record.{initial}
use study_hours.App.Ios.Runs.{run-IsTracked}
use study_hours.App.Ledger.{Ledger, node_of, empty, in_leaf, out_leaf}
use study_hours.App.Node.{View}
use study_hours.App.Steps.{here}
use study_hours.App.Text.{Text}
use study_hours.Common.{ℕ, zero, suc, ◌≤◌, ◌≡◌, refl, sym, ◌∙◌, true, none, some, List, [], arith}
use mathlib.Core.Path.{fun_ext}

in_leaf-empty : (key : ℕ) → in_leaf [] none key ≡ none
in_leaf-empty zero = refl
in_leaf-empty (suc zero) = refl
in_leaf-empty (suc (suc key)) = refl

out_leaf-empty : (key : ℕ) → out_leaf [] key ≡ none
out_leaf-empty zero = refl
out_leaf-empty (suc key) = refl

admits-long : (d : ℕ) → admits d ≡ true → 1800000 ≤ d
admits-long d h = ground arith

-- The node of a user that does not exist yet.
abbrev pub no_node : {D : Type 0} → View D
no_node = record {
  total = none;
  count = none;
  name = none;
  in_at = λ key. none;
  out_at = λ key. none;
}

module _ (f : Doubles) (fmt : Format) (db : Database f.Double) where
  open f use {Double, of_tenths}
  open db use {State}

  pub new-node_of :
      (who : Text)
      → ◌≡◌ {A = View Double}
          (record {
            total = some (of_tenths 0);
            count = some 0;
            name = some who;
            in_at = λ key. none;
            out_at = λ key. none;
          })
          (node_of f who empty)
  new-node_of who = λ i. record (node_of f who empty) {
    in_at = sym (fun_ext in_leaf-empty) i;
    out_at = sym (fun_ext out_leaf-empty) i;
  }

  pub view-sign_up :
      (code who : Text) (s : State)
      → view db (write_all db (sign_up f true code who).hours s) ≡ node_of f who empty
  view-sign_up code who s = view-write_all db (sign_up f true code who).hours s ∙ new-node_of who

  -- After a sign-up on iOS that Firebase accepts, whatever was in the node and whatever the code,
  -- the record screen handles any events at any times with no crash, where presses of the button
  -- and calls of the observer while an answer is waited for are left out, and the node then stands
  -- for the ledger that the events make of the empty one, by check-ins, check-outs of more than 30
  -- minutes with the hours printed for them, and removals. But for the ticks of the timer, the
  -- label of the minutes shows those since the check-in of the session that ran at the last call
  -- of the observer, and 0 if none ran or if the button was answered after it; where nothing is
  -- waited for, the button, the label of the check-in and the timer show the session that runs, if
  -- any. Each recorded session counts at least half an hour, and the tenths of an hour added up are off from the sum of the durations by
  -- at most a twentieth of an hour for each session.
  pub run-sign_up :
      (code who : Text) (s : State) (es : List (Event × ℕ))
      → IsHandled f fmt db who
          (advance_all fmt.tenths es (idle, empty))
          (minutes_all fmt.tenths es (idle, empty) 0)
          (run f fmt db es (record {
            screen = initial;
            task = none;
            state = write_all db (sign_up f true code who).hours s;
          }))
        × IsCounted (advance_all fmt.tenths es (idle, empty)).1.entries
  run-sign_up code who s es =
      let p : Phone Double State = record {
        screen = initial;
        task = none;
        state = write_all db (sign_up f true code who).hours s;
      } in
      let x : Stage × Ledger = advance_all fmt.tenths es (idle, empty) in
      let t : IsHandled f fmt db who x (minutes_all fmt.tenths es (idle, empty) 0)
          (run f fmt db es p) =
        run-IsTracked f fmt db who es empty p (record {
          reached = here;
          shown = view-sign_up code who s;
          stage = (refl, refl, refl, refl);
        }) in
      (t, Reach-IsCounted admits fmt x.1 admits-long t.2.reached)
