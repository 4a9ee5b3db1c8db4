-- ===== src/App/Android/Submission.antt =====
-- HomeFragment.java: a submission against the ledger, and where it goes wrong.
use mathlib.Core.Path.{fun_ext}
use study_hours.App.Android.Recorded.{puts, total_effect, count_effect, view-on_data_change}
use study_hours.App.Android.Stopwatch.{StudySession}
use study_hours.App.Android.Submit.{submit}
use study_hours.App.Database.{Database, Doubles, Format, view}
use study_hours.App.Ledger.{Ledger, Entry, node_of, check_out}
use study_hours.App.Node.{put}
use study_hours.App.Nodes.{set_session-node_of}
use study_hours.App.Text.{Text}
use study_hours.Common.{
  ℕ, ◌+◌, ◌≡◌, refl, ap, ◌∙◌, Bool, Option, none, some, List, [], ◌∷◌, ◌++◌, length, leb, arith,
}

-- At least 30 minutes.
abbrev pub admits : ℕ → Bool
admits d = leb 1800000 d

-- No guess but the present count.
abbrev pub IsFresh : ℕ → List (Option ℕ) → Type 0
IsFresh n [] = Unit
IsFresh n (none ∷ gs) = IsFresh n gs
IsFresh n (some m ∷ gs) = (m ≡ n) × IsFresh n gs

put_again : (k : ℕ) (v : Option ℕ) (m : ℕ → Option ℕ) (j : ℕ) → put k v (put k v m) j ≡ put k v m j
put_again k v m j = ground arith

puts-IsFresh :
    (n x : ℕ) (gs : List (Option ℕ)) (m : ℕ → Option ℕ)
    → IsFresh n gs
    → puts (gs ++ (some n ∷ [])) x m ≡ put (n + 1) (some x) m
puts-IsFresh n x [] m h = refl
puts-IsFresh n x (none ∷ gs) m h = puts-IsFresh n x gs m h
puts-IsFresh n x (some g ∷ gs) m h =
    puts-IsFresh n x gs (put (g + 1) (some x) m) h.1
    ∙ ap (λ k. put (n + 1) (some x) (put (k + 1) (some x) m)) h.0
    ∙ fun_ext (put_again (n + 1) (some x) m)

module _ (f : Doubles) (fmt : Format) (db : Database f.Double) where
  open f use {Double, of_tenths, add}
  open db use {State, snapshot}

  pub view-submit :
      (diff : ℕ) (s : StudySession) (gs : List (Option ℕ)) (st : State)
      → view db (submit f fmt db diff s gs st)
        ≡ count_effect f fmt s gs
            (view db st).count
            (total_effect f fmt diff (view db st).total (view db st))
  view-submit diff s gs st =
      view-on_data_change f fmt db diff s gs (snapshot st) st (db.snapshot_proper st)

  -- Where the node has neither totalHours nor numSessions, as when the sign-up broke off before it
  -- made them, a submission changes nothing that can be read of the node.
  pub submit-none :
      (diff : ℕ) (s : StudySession) (gs : List (Option ℕ)) (st : State)
      → (view db st).total ≡ none
      → (view db st).count ≡ none
      → view db (submit f fmt db diff s gs st) ≡ view db st
  submit-none diff s gs st t c =
      view-submit diff s gs st
      ∙ ap
          (λ n. count_effect f fmt s gs n (total_effect f fmt diff (view db st).total (view db st)))
          c
      ∙ ap (λ d. total_effect f fmt diff d (view db st)) t

  effect-node_of :
      (who : Text) (l : Ledger) (diff : ℕ) (s : StudySession) (gs : List (Option ℕ))
      → IsFresh (length l.entries) gs
      → count_effect f fmt s gs
          (some (length l.entries))
          (total_effect f fmt diff (node_of f who l).total (node_of f who l))
        ≡ node_of f who (
            check_out
              (record { in_time = s.in_time; out_time = s.out_time; tenths = fmt.tenths diff })
              l)
  effect-node_of who l diff s gs h =
      let e : Entry = record {
        in_time = s.in_time;
        out_time = s.out_time;
        tenths = fmt.tenths diff;
      } in
      (λ i.
        record (count_effect f fmt s gs (some (length l.entries))
          (total_effect f fmt diff (node_of f who l).total (node_of f who l))) {
            in_at = puts-IsFresh (length l.entries) s.in_time gs (node_of f who l).in_at h i;
            out_at = puts-IsFresh (length l.entries) s.out_time gs (node_of f who l).out_at h i;
          })
      ∙ set_session-node_of f who l e

  -- On the node of a ledger, whatever the order of its children, and whatever session another
  -- device has running in it, a submission whose numSessions transaction ran on no guess but null
  -- and the present count appends the session with the hours of the captured duration.
  pub submit-node_of :
      (who : Text) (l : Ledger) (diff : ℕ) (s : StudySession) (gs : List (Option ℕ)) (st : State)
      → view db st ≡ node_of f who l
      → IsFresh (length l.entries) gs
      → view db (submit f fmt db diff s gs st)
        ≡ node_of f who (
            check_out
              (record { in_time = s.in_time; out_time = s.out_time; tenths = fmt.tenths diff })
              l)
  submit-node_of who l diff s gs st v h =
      view-submit diff s gs st
      ∙ ap (λ w. count_effect f fmt s gs w.count (total_effect f fmt diff w.total w)) v
      ∙ effect-node_of who l diff s gs h
