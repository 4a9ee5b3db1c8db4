-- ===== src/App/Ios/Invariant.antt =====
-- The record screen of the iOS app keeps its node a ledger, and knows what is running.
use study_hours.App.Text.{Text}
use study_hours.App.Database.{Database, Doubles, Format, view, write_all, view-write_all}
use study_hours.App.Ios.Phone.{Phone, respond}
use study_hours.App.Ios.Protocol.{Stage, admits, stage_of, begun}
use study_hours.App.Ios.Record.{
  Screen, Task, Reply, first_value, second_value, confirm, on_first, on_first_value,
}
use study_hours.App.Nodes.{check_in-node_of}
use study_hours.App.Ledger.{Ledger, node_of, sum_from, check_in, empty}
use study_hours.App.Node.{apply_all, is_some}
use study_hours.App.Steps.{Reach, next, starts}
use study_hours.Common.{
  ℕ, ◌-◌, ◌≡◌, refl, ap, ◌∙◌, Bool, true, false, not, Option, none, some, length, arith,
  Option-cases, inl, inr,
}

module _ (f : Doubles) where
  open f use {Double, of_tenths}

  -- What holds while the controller waits, or does not wait, for something.
  abbrev pub IsStage : Ledger → Option (Task Double) → Screen → Type 0
  IsStage l none sc =
      (sc.recording ≡ is_some l.running)
      × (sc.checked_in ≡ l.running)
      × (sc.stop_title ≡ sc.recording)
      × (sc.timer_valid ≡ sc.recording)
  IsStage l (some first_value) sc = sc.recording ≡ not (is_some l.running)
  IsStage l (some (second_value n total)) sc =
      (n ≡ length l.entries)
      × (total ≡ some (sum_from f (of_tenths 0) l.entries))
      × (sc.recording ≡ false)
      × (sc.checked_in ≡ none)
      × (sc.stop_title ≡ false)
      × (sc.timer_valid ≡ false)
      × (is_some l.running ≡ true)
  IsStage l (some (confirm d n out total)) sc =
      (n ≡ length l.entries)
      × (total ≡ some (sum_from f (of_tenths 0) l.entries))
      × (sc.recording ≡ false)
      × (sc.checked_in ≡ none)
      × (sc.stop_title ≡ false)
      × (sc.timer_valid ≡ false)
      × ((t : ℕ) × (l.running ≡ some t) × (d ≡ out - t) × (admits d ≡ true))

-- The node stands for the ledger, and the screen knows what is running in it.
pub record IsTracked (f : Doubles) (fmt : Format) (db : Database f.Double) (who : Text) (l : Ledger)
    (p : Phone f.Double db.State) : Type 0 where
  pub reached : Reach admits fmt.tenths empty l
  pub shown : view db p.state ≡ node_of f who l
  pub stage : IsStage f l p.task p.screen

module _ (f : Doubles) (fmt : Format) (db : Database f.Double) (who : Text) where
  open f use {Double, of_tenths}
  open db use {State}

  -- The run comes to its end at this stage, with a node for this ledger and with the label of the
  -- minutes showing `m`.
  abbrev pub IsHandled : Stage × Ledger → ℕ → Option (Phone Double State) → Type 0
  IsHandled x m r =
      (q : Phone Double State) × (r ≡ some q)
      × IsTracked f fmt db who x.1 q
      × (stage_of q.task ≡ x.0)
      × (q.screen.counter ≡ m)

  pub IsHandled-along :
      {x y : Stage × Ledger} {m : ℕ} {r : Option (Phone Double State)}
      → x ≡ y
      → IsHandled y m r
      → IsHandled x m r
  IsHandled-along e h = rw e h

  -- A handler that replies as its case says takes the ledger `l` to `m`.
  pub reply-IsHandled :
      (l m : Ledger) (k : ℕ) (s : State) (o : Option (Reply Double)) (r : Reply Double)
      → view db s ≡ node_of f who l
      → o ≡ some r
      → Reach admits fmt.tenths empty m
      → apply_all r.writes (node_of f who l) ≡ node_of f who m
      → IsStage f m r.task r.screen
      → r.screen.counter ≡ k
      → IsHandled (stage_of r.task, m) k (respond f fmt db o s)
  reply-IsHandled l m k s o r v e reach shows st c = (
    record { screen = r.screen; task = r.task; state = write_all db r.writes s },
    ap (λ x. respond f fmt db x s) e,
    record {
      reached = reach;
      shown = view-write_all db r.writes s ∙ ap (λ w. apply_all r.writes w) v ∙ shows;
      stage = st;
    },
    refl,
    c,
  )

  on_first_value_lem :
      (l : Ledger) (now : ℕ) (s : State) (sc : Screen) (b : Bool)
      → view db s ≡ node_of f who l
      → sc.recording ≡ b
      → on_first_value (view db s) now sc
        ≡ some (on_first b (length l.entries) (some (sum_from f (of_tenths 0) l.entries)) now sc)
  on_first_value_lem l now s sc b v h =
      ap (λ w. on_first_value w now sc) v
      ∙ ap
          (λ c.
            some (on_first c (length l.entries) (some (sum_from f (of_tenths 0) l.entries)) now sc))
          h

  pub first-IsHandled :
      (l : Ledger) (now : ℕ) (s : State) (sc : Screen)
      → Reach admits fmt.tenths empty l
      → view db s ≡ node_of f who l
      → sc.recording ≡ not (is_some l.running)
      → IsHandled (begun l.running now l) 0 (respond f fmt db (on_first_value (view db s) now sc) s)
  first-IsHandled l now s sc r v st = elim (Option-cases l.running) [
    | inl e ↦
        let h : sc.recording ≡ true = ground (arith, st, e) in
        IsHandled-along (ap (λ o. begun o now l) e) (
          reply-IsHandled l (check_in now l) 0 s (on_first_value (view db s) now sc)
            (on_first true (length l.entries) (some (sum_from f (of_tenths 0) l.entries)) now sc) v
            (on_first_value_lem l now s sc true v h) (next r (starts now e refl))
            (check_in-node_of f who l now) (ground (arith, h)) (ground (arith, h)))
    | inr (t, e) ↦
        let h : sc.recording ≡ false = ground (arith, st, e) in
        IsHandled-along (ap (λ o. begun o now l) e) (
          reply-IsHandled l l 0 s (on_first_value (view db s) now sc)
            (on_first false (length l.entries) (some (sum_from f (of_tenths 0) l.entries)) now sc) v
            (on_first_value_lem l now s sc false v h) r refl (ground (arith, h, e))
            (ground (arith, h)))
  ]
