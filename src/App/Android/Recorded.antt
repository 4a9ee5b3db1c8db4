-- ===== src/App/Android/Recorded.antt =====
-- HomeFragment.java: what the loop over the children leaves in the node.
use study_hours.App.Android.Stopwatch.{StudySession}
use study_hours.App.Android.Submit.{count_writes, total_transaction, total_writes, on_data_change}
use study_hours.App.Database.{Database, Doubles, Format, view, write_all, view-write_all}
use study_hours.App.Node.{
  Child, View, Write, IsNode, total_of, count_of, apply, apply_all, put, total_hours, num_sessions,
  sister_name, session, other, set_session,
}
use study_hours.Common.{ℕ, ◌+◌, ◌≡◌, refl, ap, ◌∙◌, Option, none, some, List, [], ◌∷◌, ◌++◌}

-- A leaf map after setValue behind each of the counts.
abbrev pub puts : List (Option ℕ) → ℕ → (ℕ → Option ℕ) → ℕ → Option ℕ
puts [] x m = m
puts (none ∷ gs) x m = puts gs x m
puts (some n ∷ gs) x m = puts gs x (put (n + 1) (some x) m)

abbrev pub counted : Option ℕ → Option ℕ → Option ℕ
counted none c = c
counted (some n) c = some (n + 1)

module _ {D : Type 0} where
  abbrev pub stored : StudySession → List (Option ℕ) → View D → View D
  stored s gs v = record v {
    in_at = puts gs s.in_time v.in_at;
    out_at = puts gs s.out_time v.out_at;
  }

  count_writes_lem :
      (s : StudySession) (gs : List (Option ℕ)) (a : Option ℕ) (v : View D)
      → apply_all (count_writes s gs a) v
        ≡ record (stored s (gs ++ (a ∷ [])) v) { count = counted a v.count }
  count_writes_lem s [] none v = refl
  count_writes_lem s [] (some n) v = refl
  count_writes_lem s (none ∷ gs) a v = count_writes_lem s gs a v
  count_writes_lem s (some n ∷ gs) a v =
      count_writes_lem s gs a (apply (set_session (n + 1) s.in_time s.out_time) v)

module _ (f : Doubles) (fmt : Format) where
  open f use {Double}

  total_writes_lem :
      (diff : ℕ) (o : Option Double) (v : View Double)
      → v.total ≡ o
      → apply_all (total_writes f fmt (total_transaction f fmt diff o)) v
        ≡ record v { total = total_transaction f fmt diff o }
  total_writes_lem diff none v h = λ i. record v { total = h i }
  total_writes_lem diff (some t) v h = refl

  -- The effect of a child totalHours, and of a child numSessions.
  abbrev pub total_effect : ℕ → Option Double → View Double → View Double
  total_effect diff none v = v
  total_effect diff (some d) v = record v { total = total_transaction f fmt diff v.total }

  abbrev pub count_effect : StudySession → List (Option ℕ) → Option ℕ → View Double → View Double
  count_effect s gs none v = v
  count_effect s gs (some n) v = record (stored s (gs ++ (v.count ∷ [])) v) {
    count = counted v.count v.count;
  }

  effects_commute :
      (diff : ℕ) (s : StudySession) (gs : List (Option ℕ)) (t : Option Double) (n : ℕ)
      (v : View Double)
      → total_effect diff t (count_effect s gs (some n) v)
        ≡ count_effect s gs (some n) (total_effect diff t v)
  effects_commute diff s gs none n v = refl
  effects_commute diff s gs (some t) n v = refl

  module _ (db : Database Double) where
    open db use {State}

    -- In whatever order the children come, each transaction has its effect where its child is.
    pub view-on_data_change :
        (diff : ℕ) (s : StudySession) (gs : List (Option ℕ)) (cs : List (Child Double)) (st : State)
        → IsNode cs
        → view db (on_data_change f fmt db diff s gs cs st)
          ≡ count_effect s gs (count_of cs) (total_effect diff (total_of cs) (view db st))
    view-on_data_change diff s gs [] st h = refl
    view-on_data_change diff s gs (sister_name x ∷ cs) st h =
        view-on_data_change diff s gs cs st h.1
    view-on_data_change diff s gs (session k i o ∷ cs) st h =
        view-on_data_change diff s gs cs st h.3
    view-on_data_change diff s gs (other i o ∷ cs) st h = view-on_data_change diff s gs cs st h
    view-on_data_change diff s gs (total_hours d ∷ cs) st h =
        let ws : List (Write Double) =
          total_writes f fmt (total_transaction f fmt diff (view db st).total) in
        view-on_data_change diff s gs cs (write_all db ws st) h.1
        ∙ ap
            (λ t.
              count_effect s gs (count_of cs) (total_effect diff t (view db (write_all db ws st))))
            h.0
        ∙ ap (λ v. count_effect s gs (count_of cs) v)
            (view-write_all db ws st ∙ total_writes_lem diff (view db st).total (view db st) refl)
    view-on_data_change diff s gs (num_sessions n ∷ cs) st h =
        let ws : List (Write Double) = count_writes s gs (view db st).count in
        view-on_data_change diff s gs cs (write_all db ws st) h.1
        ∙ ap
            (λ c.
              count_effect s gs c (total_effect diff (total_of cs) (view db (write_all db ws st))))
            h.0
        ∙ ap (λ v. total_effect diff (total_of cs) v)
            (view-write_all db ws st ∙ count_writes_lem s gs (view db st).count (view db st))
        ∙ effects_commute diff s gs (total_of cs) n (view db st)
