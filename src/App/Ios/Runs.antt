-- ===== src/App/Ios/Runs.antt =====
-- Runs of the record screen of the iOS app.
use study_hours.App.Text.{Text}
use study_hours.App.Database.{Database, Doubles, Format, view}
use study_hours.App.Ios.Observer.{has_session, observe_value_lem}
use study_hours.App.Ios.Phone.{
  Phone, Event, press, value, answer, observed, refresh, dispatch, handle, run,
}
use study_hours.App.Ios.Record.{
  Screen, Task, first_value, second_value, confirm, start_recording, observe_value, update_screen,
  in_or,
}
use study_hours.App.Leaves.{in_leaf-next, out_leaf-next}
use study_hours.App.Ledger.{Ledger, node_of, empty}
use study_hours.App.Node.{is_some, in_of, out_of}
use study_hours.App.Steps.{Reach}
use study_hours.Common.{
  ℕ, ◌+◌, ◌≡◌, refl, sym, ap, ◌∙◌, Bool, not, Option, none, some, List, [], ◌∷◌, ◌||◌, length,
  arith, Option-cases, inl, inr,
}
use study_hours.App.Ios.Protocol.{
  Stage, idle, admits, stage_of, advance, advance_all, minutes_since, minutes, minutes_all,
}
use study_hours.App.Ios.Invariant.{IsStage, IsTracked, IsHandled, IsHandled-along, first-IsHandled}
use study_hours.App.Ios.Answers.{second-IsHandled, answer-IsHandled}

-- The observer shows what is running: the screen that it leaves.
shows-IsStage :
    (f : Doubles) (l : Ledger) (sc : Screen) (now : ℕ)
    → IsStage f l none (
        update_screen
          (is_some l.running)
          (in_or l.running 0)
          now
          (record sc { recording = is_some l.running }))
shows-IsStage f l sc now = by_running l.running
  where
    by_running :
        (o : Option ℕ)
        → IsStage f
            (record l { running = o })
            none
            (update_screen (is_some o) (in_or o 0) now (record sc { recording = is_some o }))
    by_running none = (refl, refl, refl, refl)
    by_running (some t) = (refl, refl, refl, refl)

shows-minutes :
    (o : Option ℕ) (now : ℕ) (sc : Screen)
    → (update_screen (is_some o) (in_or o 0) now sc).counter ≡ minutes_since o now
shows-minutes none now sc = refl
shows-minutes (some t) now sc = refl

module _ (f : Doubles) (fmt : Format) (db : Database f.Double) (who : Text) where
  open f use {Double, of_tenths}
  open db use {State}

  observed-IsHandled :
      (l : Ledger) (now : ℕ) (s : State) (sc : Screen)
      → Reach admits fmt.tenths empty l
      → view db s ≡ node_of f who l
      → IsStage f l none sc
      → IsHandled f fmt db who
          (idle, l)
          (minutes_since l.running now)
          (refresh f fmt db (observe_value (db.snapshot s) now sc) s)
  observed-IsHandled l now s sc r v st =
      let n : ℕ = length l.entries in
      let running_in : in_of (db.snapshot s) (n + 1) ≡ l.running =
        ap (λ w. w.in_at (n + 1)) v ∙ in_leaf-next l.entries l.running in
      let running_out : out_of (db.snapshot s) (n + 1) ≡ none =
        ap (λ w. w.out_at (n + 1)) v ∙ out_leaf-next l.entries in
      let b : Bool = is_some l.running in
      let seen : (sc.recording || has_session (db.snapshot s) (n + 1)) ≡ b =
        ground (arith, running_in, running_out, st.0) in
      let shows : Screen = update_screen b (in_or l.running 0) now (record sc { recording = b }) in
      (
        record { screen = shows; task = none; state = s },
        ap (λ o. refresh f fmt db o s)
            (observe_value_lem (db.snapshot s) now n sc (db.snapshot_proper s) (ap (λ w. w.count) v)
              ∙ ap
                  (λ c. some (
                    update_screen c (in_or (in_of (db.snapshot s) (n + 1)) 0) now
                      (record sc { recording = c })))
                  seen
              ∙ ap (λ i. some (update_screen b (in_or i 0) now (record sc { recording = b })))
                  running_in),
        record { reached = r; shown = v; stage = shows-IsStage f l sc now },
        refl,
        shows-minutes l.running now (record sc { recording = b }),
      )

  unchanged :
      (l : Ledger) (task : Option (Task Double)) (s : State) (sc : Screen)
      → Reach admits fmt.tenths empty l
      → view db s ≡ node_of f who l
      → IsStage f l task sc
      → IsHandled f fmt db who
          (stage_of task, l)
          sc.counter
          (some (record { screen = sc; task = task; state = s }))
  unchanged l task s sc r v st = (
    record { screen = sc; task = task; state = s },
    refl,
    record { reached = r; shown = v; stage = st },
    refl,
    refl,
  )

  dispatch-IsHandled :
      (l : Ledger) (task : Option (Task Double)) (e : Event) (now : ℕ) (s : State) (sc : Screen)
      → Reach admits fmt.tenths empty l
      → view db s ≡ node_of f who l
      → IsStage f l task sc
      → IsHandled f fmt db who
          (advance fmt.tenths (stage_of task) e now l)
          (minutes (stage_of task) e now l sc.counter)
          (dispatch f fmt db task e now sc s)
  dispatch-IsHandled l none press now s sc r v st = (
    record { screen = start_recording sc; task = some first_value; state = s },
    refl,
    record { reached = r; shown = v; stage = ap not st.0 },
    refl,
    refl,
  )
  dispatch-IsHandled l none observed now s sc r v st = observed-IsHandled l now s sc r v st
  dispatch-IsHandled l none value now s sc r v st = unchanged l none s sc r v st
  dispatch-IsHandled l none (answer a) now s sc r v st = unchanged l none s sc r v st
  dispatch-IsHandled l (some first_value) value now s sc r v st =
      first-IsHandled f fmt db who l now s sc r v st
  dispatch-IsHandled l (some first_value) press now s sc r v st =
      unchanged l (some first_value) s sc r v st
  dispatch-IsHandled l (some first_value) (answer a) now s sc r v st =
      unchanged l (some first_value) s sc r v st
  dispatch-IsHandled l (some first_value) observed now s sc r v st =
      unchanged l (some first_value) s sc r v st
  dispatch-IsHandled l (some (second_value n total)) value now s sc r v st =
      elim (Option-cases l.running) [
        | inl e ↦ cc (sym (ap is_some e) ∙ st.6)
        | inr (t, e) ↦ second-IsHandled f fmt db who l n total now t s sc r v e st
      ]
  dispatch-IsHandled l (some (second_value n total)) press now s sc r v st =
      unchanged l (some (second_value n total)) s sc r v st
  dispatch-IsHandled l (some (second_value n total)) (answer a) now s sc r v st =
      unchanged l (some (second_value n total)) s sc r v st
  dispatch-IsHandled l (some (second_value n total)) observed now s sc r v st =
      unchanged l (some (second_value n total)) s sc r v st
  dispatch-IsHandled l (some (confirm d n out total)) (answer a) now s sc r v st =
      answer-IsHandled f fmt db who l a d n out now total s sc r v st
  dispatch-IsHandled l (some (confirm d n out total)) press now s sc r v st =
      unchanged l (some (confirm d n out total)) s sc r v st
  dispatch-IsHandled l (some (confirm d n out total)) value now s sc r v st =
      unchanged l (some (confirm d n out total)) s sc r v st
  dispatch-IsHandled l (some (confirm d n out total)) observed now s sc r v st =
      unchanged l (some (confirm d n out total)) s sc r v st

  -- From a screen that tracks a ledger, for any events at any times, where those that cannot come,
  -- and presses and calls of the observer while an answer is waited for, are left out, and so are
  -- the ticks of the timer, the run comes to its end with no crash, at the stage and with the
  -- ledger that the events make, which check-ins, check-outs of more than 30 minutes and removals
  -- reach from an empty one. The label of the minutes shows those since the check-in of the session
  -- that ran at the last call of the observer, and 0 if none ran or if the button was answered
  -- after it. Where nothing is waited for, the button, the label of the check-in and the timer show the session that runs, if any.
  pub run-IsTracked :
      (es : List (Event × ℕ)) (l : Ledger) (p : Phone Double State)
      → IsTracked f fmt db who l p
      → IsHandled f fmt db who
          (advance_all fmt.tenths es (stage_of p.task, l))
          (minutes_all fmt.tenths es (stage_of p.task, l) p.screen.counter)
          (run f fmt db es p)
  run-IsTracked [] l p t = (p, refl, t, refl, refl)
  run-IsTracked ((e, now) ∷ es) l p t =
      let x : Stage × Ledger = advance fmt.tenths (stage_of p.task) e now l in
      let m : ℕ = minutes (stage_of p.task) e now l p.screen.counter in
      let h : IsHandled f fmt db who x m (handle f fmt db e now p) =
        dispatch-IsHandled l p.task e now p.state p.screen t.reached t.shown t.stage in
      let rest : IsHandled f fmt db who (advance_all fmt.tenths es (stage_of (h.0).task, x.1))
          (minutes_all fmt.tenths es (stage_of (h.0).task, x.1) (h.0).screen.counter)
          (run f fmt db es h.0) =
        run-IsTracked es x.1 h.0 h.2 in
      IsHandled-along f fmt db who (ap (λ st. advance_all fmt.tenths es (st, x.1)) (sym h.3)) (
        rest.0,
        rw (h.1, run) rest.1,
        rest.2,
        rest.3,
        rest.4
            ∙ ap (λ st. minutes_all fmt.tenths es (st, x.1) (h.0).screen.counter) h.3
            ∙ ap (minutes_all fmt.tenths es x) h.4,
      )
