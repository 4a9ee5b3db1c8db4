-- ===== src/App/Ios/Races.antt =====
-- RecordViewController.swift: what another device does between the callbacks is not seen.
use study_hours.App.Database.{Database, Doubles, Format, view, write_all, view-write_all}
use study_hours.App.Ios.Observer.{has_session, observe_value_lem}
use study_hours.App.Ios.Phone.{Phone, Event, press, value, observed, respond, refresh, handle, run}
use study_hours.App.Ios.Record.{
  Screen, Reply, first_value, second_value, start_recording, on_first, on_first_value,
  on_second_value, on_answer, record_session, observe_value, update_screen, in_or,
}
use study_hours.App.Leaves.{in_leaf-next, in_leaf-append}
use study_hours.App.Ledger.{Ledger, Entry, node_of, sum_from, check_out}
use study_hours.App.Node.{View, apply_all, in_of}
use study_hours.App.Text.{Text}
use study_hours.Common.{
  ℕ, ◌+◌, ◌≡◌, refl, sym, ap, ◌∙◌, Bool, true, false, not, ◌||◌, Option, none, some, List, [], ◌∷◌,
  length, arith,
}

update_screen-recording :
    (b : Bool) (i now : ℕ) (s : Screen) → (update_screen b i now s).recording ≡ s.recording
update_screen-recording true i now s = refl
update_screen-recording false i now s = refl

module _ (f : Doubles) (fmt : Format) (db : Database f.Double) (who : Text) where
  open f use {Double, of_tenths, add}
  open db use {State}

  -- The answer "Yes" on a node to which another device has added a session since this one read it:
  -- the count stays, the hours of the added session are gone from the total, and its check-out time
  -- is replaced by this one's.
  pub on_answer-check_out :
      (l : Ledger) (e : Entry) (d out : ℕ) (s : State) (sc : Screen)
      → view db s ≡ node_of f who (check_out e l)
      → (p : Phone Double State) × (respond f fmt db
            (on_answer f fmt true d
              (length l.entries)
              out
              (some (sum_from f (of_tenths 0) l.entries))
              sc)
            s
          ≡ some p)
        × ((view db p.state).count ≡ some (length l.entries + 1))
        × ((view db p.state).total
            ≡ some (add (sum_from f (of_tenths 0) l.entries) (of_tenths (fmt.tenths d))))
        × ((view db p.state).in_at (length l.entries + 1) ≡ some e.in_time)
        × ((view db p.state).out_at (length l.entries + 1) ≡ some out)
  on_answer-check_out l e d out s sc v =
      let n : ℕ = length l.entries in
      let sum : Double = sum_from f (of_tenths 0) l.entries in
      let after : view db (write_all db (record_session f fmt d n out sum) s)
          ≡ apply_all (record_session f fmt d n out sum) (node_of f who (check_out e l)) =
        view-write_all db (record_session f fmt d n out sum) s
        ∙ ap (λ w. apply_all (record_session f fmt d n out sum) w) v in
      (
        record {
          screen = sc;
          task = none;
          state = write_all db (record_session f fmt d n out sum) s;
        },
        refl,
        ap (λ (w : View Double). w.count) after,
        ap (λ (w : View Double). w.total) after,
        ap (λ (w : View Double). w.in_at (n + 1)) after
            ∙ ap (λ m. m (n + 1)) (sym (in_leaf-append l.entries e))
            ∙ in_leaf-next l.entries (some e.in_time),
        ap (λ (w : View Double). w.out_at (n + 1)) after ∙ ground arith,
      )

  run_step :
      (e : Event) (now : ℕ) (es : List (Event × ℕ)) (p q : Phone Double State)
      → handle f fmt db e now p ≡ some q
      → run f fmt db ((e, now) ∷ es) p ≡ run f fmt db es q
  run_step e now es p q h = rw (h, run) refl

  -- The observer on a screen that is recording leaves it so.
  observed-recording :
      (l : Ledger) (s : State) (sc : Screen) (now : ℕ)
      → view db s ≡ node_of f who l
      → sc.recording ≡ true
      → (sc' : Screen) × (observe_value (db.snapshot s) now sc ≡ some sc') × (sc'.recording ≡ true)
  observed-recording l s sc now v h =
      let n : ℕ = length l.entries in
      let b : Bool = sc.recording || has_session (db.snapshot s) (n + 1) in
      let i : ℕ = in_or (in_of (db.snapshot s) (n + 1)) 0 in
      (
        update_screen b i now (record sc { recording = b }),
        observe_value_lem (db.snapshot s) now n sc (db.snapshot_proper s) (ap (λ w. w.count) v),
        update_screen-recording b i now (record sc { recording = b }) ∙ ground (arith, h),
      )

  -- The second value, where no session is running.
  second-none :
      (l : Ledger) (s : State) (sc : Screen) (total : Option Double) (now : ℕ)
      → view db s ≡ node_of f who l
      → l.running ≡ none
      → on_second_value (length l.entries) total (view db s) now sc ≡ none
  second-none l s sc total now v e =
      ap (λ w. on_second_value (length l.entries) total w now sc) v
      ∙ rw (in_leaf-next l.entries l.running ∙ e, on_second_value) refl

  -- Two presses before the first value comes: the value finds that the recording has stopped again,
  -- and asks for a session that is not there, which crashes.
  on_first_value-twice :
      (l : Ledger) (s : State) (sc : Screen) (t later : ℕ)
      → view db s ≡ node_of f who l
      → l.running ≡ none
      → sc.recording ≡ false
      → (r : Reply Double) × (on_first_value (view db s) t (start_recording (start_recording sc))
          ≡ some r)
        × (r.task
            ≡ some (second_value (length l.entries) (some (sum_from f (of_tenths 0) l.entries))))
        × (on_second_value
              (length l.entries)
              (some (sum_from f (of_tenths 0) l.entries))
              (view db s)
              later
              r.screen
            ≡ none)
  on_first_value-twice l s sc t later v e h =
      let n : ℕ = length l.entries in
      let sum : Double = sum_from f (of_tenths 0) l.entries in
      let twice : Screen = start_recording (start_recording sc) in
      let stopped : twice.recording ≡ false = ap (λ b. not (not b)) h in
      let reply : Reply Double = on_first false n (some sum) t twice in
      (
        reply,
        ap (λ w. on_first_value w t twice) v
            ∙ ap (λ b. some (on_first b n (some sum) t twice)) stopped,
        refl,
        second-none l s reply.screen (some sum) later v e,
      )

  -- The observer never takes `recording` back: on a screen that shows a session which another
  -- device has ended, the next press of the button, which says "Stop", crashes.
  pub run-ended :
      (l : Ledger) (s : State) (sc : Screen) (t0 t1 t2 t3 : ℕ)
      → view db s ≡ node_of f who l
      → l.running ≡ none
      → sc.recording ≡ true
      → run f fmt db
          ((observed, t0) ∷ (press, t1) ∷ (value, t2) ∷ (value, t3) ∷ [])
          (record { screen = sc; task = none; state = s })
        ≡ none
  run-ended l s sc t0 t1 t2 t3 v e h =
      let n : ℕ = length l.entries in
      let sum : Double = sum_from f (of_tenths 0) l.entries in
      let o : (sc' : Screen) × (observe_value (db.snapshot s) t0 sc ≡ some sc')
          × (sc'.recording ≡ true) =
        observed-recording l s sc t0 v h in
      let pressed_screen : Screen = start_recording o.0 in
      let stopped : pressed_screen.recording ≡ false = ap not o.2 in
      let reply : Reply Double = on_first false n (some sum) t2 pressed_screen in
      run_step observed t0 ((press, t1) ∷ (value, t2) ∷ (value, t3) ∷ [])
        (record { screen = sc; task = none; state = s })
        (record { screen = o.0; task = none; state = s }) (ap (λ x. refresh f fmt db x s) o.1)
      ∙ run_step value t2 ((value, t3) ∷ [])
          (record { screen = pressed_screen; task = some first_value; state = s })
          (record { screen = reply.screen; task = reply.task; state = s })
          (ap (λ x. respond f fmt db x s)
            (ap (λ w. on_first_value w t2 pressed_screen) v
              ∙ ap (λ b. some (on_first b n (some sum) t2 pressed_screen)) stopped))
      ∙ rw (second-none l s reply.screen (some sum) t3 v e, run) refl
