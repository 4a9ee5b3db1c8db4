-- ===== src/App/Android/Races.antt =====
-- HomeFragment.java: submissions that do not store what was recorded.
use study_hours.App.Android.Recorded.{total_effect, count_effect}
use study_hours.App.Android.Rotation.{IsWatch, start-IsWatch, stop-IsWatch}
use study_hours.App.Android.Stopwatch.{
  Clock, StudySession, Fragment, offer, popup_of, new_session, set_out, press,
}
use study_hours.App.Android.Submission.{IsFresh, submit-node_of, view-submit}
use study_hours.App.Android.Submit.{submit, run_handlers, run_handlers_lem}
use study_hours.App.Database.{Database, Doubles, Format, view}
use study_hours.App.Ledger.{Ledger, node_of, check_out}
use study_hours.App.Node.{View}
use study_hours.App.Steps.{entry_of}
use study_hours.App.Text.{Text}
use study_hours.Common.{
  ℕ, ◌+◌, ◌-◌, ◌≤◌, ◌<◌, ◌≡◌, Option, List, ap, ◌∙◌, none, some, [], ◌∷◌, length, arith,
}

module _ (f : Doubles) (fmt : Format) (db : Database f.Double) (who : Text) where
  open db use {State}

  -- After a check-out of a session of at least 30 minutes and a click on submit: if the handlers
  -- run before the button is pressed again, they append that session. If they run only after it,
  -- what they append is the new session, checked in at that press and with no check-out time but 0,
  -- though with the hours of the old one.
  pub run_handlers-press :
      (l : Ledger) (start stop again : Clock) (g : Fragment) (gs : List (Option ℕ)) (st : State)
      → IsWatch (some start) g
      → 1800000 ≤ stop.wall - start.wall
      → view db st ≡ node_of f who l
      → IsFresh (length l.entries) gs
      → (h later : Fragment) × (early late : State) × (press stop g
          ≡ some (h, some (offer (stop.wall - start.wall))))
        × (press again h ≡ some (later, none))
        × (run_handlers f fmt db (stop.wall - start.wall) gs h st ≡ some early)
        × (view db early ≡ node_of f who (check_out (entry_of fmt.tenths start.wall stop.wall) l))
        × (run_handlers f fmt db (stop.wall - start.wall) gs later st ≡ some late)
        × (view db late
            ≡ node_of f who (
                check_out
                  (record {
                    in_time = again.wall;
                    out_time = 0;
                    tenths = fmt.tenths (stop.wall - start.wall);
                  })
                  l))
  run_handlers-press l start stop again g gs st w long v fresh =
      let d : ℕ = stop.wall - start.wall in
      let old : StudySession = set_out stop (new_session start) in
      let s : (h : Fragment) × (press stop g ≡ some (h, some (popup_of d)))
          × IsWatch none h
          × (h.study_session ≡ some old) =
        stop-IsWatch start stop g w in
      let t : (h : Fragment) × (press again s.0 ≡ some (h, none)) × IsWatch (some again) h =
        start-IsWatch again s.0 s.2 in
      let offered : popup_of d ≡ offer d = ground (arith, long) in
      (
        s.0,
        t.0,
        submit f fmt db d old gs st,
        submit f fmt db d (new_session again) gs st,
        s.1 ∙ ap (λ p. some (s.0, some p)) offered,
        t.1,
        run_handlers_lem f fmt db d gs old s.0 st s.3,
        submit-node_of f fmt db who l d old gs st v fresh,
        run_handlers_lem f fmt db d gs (new_session again) t.0 st t.2.5,
        submit-node_of f fmt db who l d (new_session again) gs st v fresh,
      )

  -- If the handler of the numSessions transaction first ran on a count below the present one, the
  -- submission overwrites the recorded session behind that count with the submitted one.
  pub submit-stale :
      (l : Ledger) (m diff : ℕ) (s : StudySession) (st : State)
      → view db st ≡ node_of f who l
      → m < length l.entries
      → ((view db (submit f fmt db diff s (some m ∷ []) st)).count ≡ some (length l.entries + 1))
        × ((view db (submit f fmt db diff s (some m ∷ []) st)).in_at (m + 1) ≡ some s.in_time)
        × ((view db (submit f fmt db diff s (some m ∷ []) st)).out_at (m + 1) ≡ some s.out_time)
  submit-stale l m diff s st v h =
      let e : view db (submit f fmt db diff s (some m ∷ []) st)
          ≡ count_effect f fmt s (some m ∷ []) (some (length l.entries))
              (total_effect f fmt diff (node_of f who l).total (node_of f who l)) =
        view-submit f fmt db diff s (some m ∷ []) st
        ∙ ap (λ w. count_effect f fmt s (some m ∷ []) w.count (total_effect f fmt diff w.total w))
            v in
      (
        ap (λ (w : View f.Double). w.count) e,
        ap (λ (w : View f.Double). w.in_at (m + 1)) e ∙ ground (arith, h),
        ap (λ (w : View f.Double). w.out_at (m + 1)) e ∙ ground (arith, h),
      )
