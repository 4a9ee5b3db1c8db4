-- ===== src/App/Ios/Answers.antt =====
-- The running session of the iOS app is read, judged and recorded or removed.
use study_hours.App.Text.{Text}
use study_hours.App.Database.{Database, Doubles, Format, view}
use study_hours.App.Ios.Phone.{answer, respond}
use study_hours.App.Ios.Record.{
  Screen, second_value, confirm, on_second, on_second_value, on_answer, record_session,
  dismiss_session,
}
use study_hours.App.Leaves.{in_leaf-next}
use study_hours.App.Nodes.{give_up-node_of, check_out-node_of}
use study_hours.App.Ledger.{Ledger, Entry, node_of, in_leaf, sum_from, check_out, give_up, empty}
use study_hours.App.Node.{View, apply_all}
use study_hours.App.Steps.{Reach, next, finishes, discards, entry_of}
use study_hours.Common.{
  ℕ, ◌+◌, ◌-◌, ◌≡◌, refl, sym, ap, ◌∙◌, Bool, true, false, Option, none, some, [], if◌then◌else◌,
  length, Bool-cases, inl, inr,
}
use study_hours.App.Ios.Protocol.{idle, deciding, admits, judged, kept, advance}
use study_hours.App.Ios.Invariant.{IsStage, IsHandled, IsHandled-along, reply-IsHandled}

module _ (f : Doubles) (fmt : Format) (db : Database f.Double) (who : Text) where
  open f use {Double, of_tenths}
  open db use {State}

  -- The second value is asked for where a session is running.
  in_at-running :
      (l : Ledger) (n t : ℕ) (s : State)
      → view db s ≡ node_of f who l
      → n ≡ length l.entries
      → l.running ≡ some t
      → (view db s).in_at (n + 1) ≡ some t
  in_at-running l n t s v hn h =
      ap (λ w. w.in_at (n + 1)) v
      ∙ ap (λ k. in_leaf l.entries l.running (k + 1)) hn
      ∙ in_leaf-next l.entries l.running
      ∙ h

  on_second_value_lem :
      (n : ℕ) (total : Option Double) (w : View Double) (now t : ℕ) (sc : Screen)
      → w.in_at (n + 1) ≡ some t
      → on_second_value n total w now sc ≡ some (on_second n total t now sc)
  on_second_value_lem n total w now t sc h = rw (h, on_second_value) refl

  pub second-IsHandled :
      (l : Ledger) (n : ℕ) (total : Option Double) (now t : ℕ) (s : State) (sc : Screen)
      → Reach admits fmt.tenths empty l
      → view db s ≡ node_of f who l
      → l.running ≡ some t
      → IsStage f l (some (second_value n total)) sc
      → IsHandled f fmt db who
          (judged l.running now l)
          sc.counter
          (respond f fmt db (on_second_value n total (view db s) now sc) s)
  second-IsHandled l n total now t s sc r v h st =
      let e : on_second_value n total (view db s) now sc ≡ some (on_second n total t now sc) =
        on_second_value_lem n total (view db s) now t sc (in_at-running l n t s v st.0 h) in
      elim (Bool-cases (admits (now - t))) [
        | inl long ↦
            IsHandled-along f fmt db who
              (ap (λ o. judged o now l) h
                ∙ ap (λ b. if b then (deciding now, l) else (idle, give_up l)) long)
              (reply-IsHandled f fmt db who l l sc.counter s
                (on_second_value n total (view db s) now sc)
                (record { screen = sc; writes = []; task = some (confirm (now - t) n now total) }) v
                (rw (e, long) refl) r refl (st.0, st.1, st.2, st.3, st.4, st.5, (t, h, refl, long))
                refl)
        | inr short ↦
            IsHandled-along f fmt db who
              (ap (λ o. judged o now l) h
                ∙ ap (λ b. if b then (deciding now, l) else (idle, give_up l)) short)
              (reply-IsHandled f fmt db who l (give_up l) sc.counter s
                (on_second_value n total (view db s) now sc)
                (record { screen = sc; writes = dismiss_session n; task = none }) v
                (rw (e, short) refl) (next r (discards t h refl))
                (ap (λ k. apply_all (dismiss_session k) (node_of f who l)) st.0
                  ∙ give_up-node_of f who l)
                (st.2, st.3, st.4 ∙ sym st.2, st.5 ∙ sym st.2) refl)
      ]

  pub answer-IsHandled :
      (l : Ledger) (a : Bool) (d n out now : ℕ) (total : Option Double) (s : State) (sc : Screen)
      → Reach admits fmt.tenths empty l
      → view db s ≡ node_of f who l
      → IsStage f l (some (confirm d n out total)) sc
      → IsHandled f fmt db who
          (advance fmt.tenths (deciding out) (answer a) now l)
          sc.counter
          (respond f fmt db (on_answer f fmt a d n out total sc) s)
  answer-IsHandled l true d n out now total s sc r v st =
      let t : ℕ = st.6.0 in
      let e : Entry = entry_of fmt.tenths t out in
      let sum : Double = sum_from f (of_tenths 0) l.entries in
      IsHandled-along f fmt db who (ap (λ o. kept fmt.tenths o out l) st.6.1) (
        reply-IsHandled f fmt db who l (check_out e l) sc.counter s
          (on_answer f fmt true d n out total sc)
          (record { screen = sc; writes = record_session f fmt d n out sum; task = none }) v
          (ap (λ o. on_answer f fmt true d n out o sc) st.1)
          (next r (finishes t out st.6.1 (rw (sym st.6.2) st.6.3) refl))
          (ap (λ k. apply_all (record_session f fmt d k out sum) (node_of f who l)) st.0
            ∙ ap
                (λ x.
                  apply_all (record_session f fmt x (length l.entries) out sum) (node_of f who l))
                st.6.2
            ∙ check_out-node_of f who l e st.6.1)
          (st.2, st.3, st.4 ∙ sym st.2, st.5 ∙ sym st.2) refl)
  answer-IsHandled l false d n out now total s sc r v st =
      reply-IsHandled f fmt db who l (give_up l) sc.counter s
        (on_answer f fmt false d n out total sc)
        (record { screen = sc; writes = dismiss_session n; task = none }) v refl
        (next r (discards st.6.0 st.6.1 refl))
        (ap (λ k. apply_all (dismiss_session k) (node_of f who l)) st.0 ∙ give_up-node_of f who l)
        (st.2, st.3, st.4 ∙ sym st.2, st.5 ∙ sym st.2) refl
