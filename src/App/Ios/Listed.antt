-- ===== src/App/Ios/Listed.antt =====
-- ViewController.swift: what its loop takes from the children.
use study_hours.App.Dict.{lookup, lookup-insert, insert-IsAbove, IsAbove}
use study_hours.App.Ios.History.{Session, History, add_session, on_value}
use study_hours.App.Ios.Record.{in_or}
use study_hours.App.Listing.{pick}
use study_hours.App.Node.{
  Child, IsNode, IsPlain, total_of, in_of, out_of, total_hours, num_sessions, sister_name, session,
  other,
}
use study_hours.Common.{
  ℕ, ◌≡◌, refl, ap, ◌∙◌, Option, none, some, List, [], ◌∷◌, ◌==◌, ==_iff, Bool-cases, inl, inr,
  arith, if◌then◌else◌,
}

-- The session that the screen takes from two leaves.
abbrev pub taken : Option ℕ → Option ℕ → Option Session
taken o i =
    if in_or o 0 == 0 then none else some (record { in_time = in_or i 0; out_time = in_or o 0 })

module _ {D : Type 0} where
  -- What the loop makes of a screen and the children.
  pub record Reads (cs : List (Child D)) (h g : History D) : Type 0 where
    pub text : g.total_text ≡ pick (total_of cs) h.total_text
    pub rows :
        (key : ℕ)
        → lookup g.sessions key
          ≡ pick (taken (out_of cs key) (in_of cs key)) (lookup h.sessions key)
    pub above : IsAbove 0 h.sessions → IsAbove 0 g.sessions

  add_session-IsAbove :
      (k i o : ℕ) (h : History D) → IsAbove 0 h.sessions → IsAbove 0 (add_session k i o h).sessions
  add_session-IsAbove k i o h a = elim (Bool-cases (o == 0)) [
    | inl e ↦ rw e a
    | inr e ↦
        rw e (insert-IsAbove 0 k (record { in_time = i; out_time = o }) h.sessions a (omega arith))
  ]

  lookup-add_session :
      (k : ℕ) (i o : Option ℕ) (h : History D) (key : ℕ)
      → lookup (add_session k (in_or i 0) (in_or o 0) h).sessions key
        ≡ pick (if k == key then taken o i else none) (lookup h.sessions key)
  lookup-add_session k i o h key =
      let s : Session = record { in_time = in_or i 0; out_time = in_or o 0 } in
      ground (arith, lookup-insert k s h.sessions key)

  total_text-add_session :
      (k i o : ℕ) (h : History D) → (add_session k i o h).total_text ≡ h.total_text
  total_text-add_session k i o h = elim (Bool-cases (o == 0)) [
    | inl e ↦ rw e refl
    | inr e ↦ rw e refl
  ]

  rows-add_session :
      (k key : ℕ) (i o a b : Option ℕ) (h : History D)
      → (k ≡ key → a ≡ none)
      → (k ≡ key → b ≡ none)
      → pick (taken b a) (lookup (add_session k (in_or i 0) (in_or o 0) h).sessions key)
        ≡ pick
            (taken (if k == key then o else b) (if k == key then i else a))
            (lookup h.sessions key)
  rows-add_session k key i o a b h na nb =
      rw (lookup-add_session k i o h key) (elim (Bool-cases (k == key)) [
        | inl e ↦ rw (na ((==_iff k key).0 e), nb ((==_iff k key).0 e), e) refl
        | inr e ↦ rw e refl
      ])

  pub on_value_lem :
      (cs : List (Child D)) (h : History D)
      → IsNode cs
      → IsPlain cs
      → (g : History D) × (on_value cs h ≡ some g) × Reads cs h g
  on_value_lem [] h n p = (h, refl, record { text = refl; rows = λ key. refl; above = λ a. a })
  on_value_lem (total_hours d ∷ cs) h n p =
      let r : (g : History D) × (on_value cs (record h { total_text = some d }) ≡ some g)
          × Reads cs (record h { total_text = some d }) g =
        on_value_lem cs (record h { total_text = some d }) n.1 p in
      (
        r.0,
        r.1,
        record {
          text = r.2.text ∙ ap (λ t. pick t (some d)) n.0;
          rows = r.2.rows;
          above = r.2.above;
        },
      )
  on_value_lem (num_sessions m ∷ cs) h n p =
      let r : (g : History D) × (on_value cs h ≡ some g) × Reads cs h g = on_value_lem cs h n.1 p in
      (r.0, r.1, record { text = r.2.text; rows = r.2.rows; above = r.2.above })
  on_value_lem (sister_name s ∷ cs) h n p =
      let r : (g : History D) × (on_value cs h ≡ some g) × Reads cs h g = on_value_lem cs h n.1 p in
      (r.0, r.1, record { text = r.2.text; rows = r.2.rows; above = r.2.above })
  on_value_lem (other i o ∷ cs) h n p = cc
  on_value_lem (session k i o ∷ cs) h n p =
      let h' : History D = add_session k (in_or i 0) (in_or o 0) h in
      let r : (g : History D) × (on_value cs h' ≡ some g) × Reads cs h' g =
        on_value_lem cs h' n.3 p in
      (
        r.0,
        r.1,
        record {
          text =
              r.2.text
              ∙ ap (λ t. pick (total_of cs) t) (total_text-add_session k (in_or i 0) (in_or o 0) h);
          rows = λ key.
              r.2.rows key
              ∙ rows-add_session k key i o (in_of cs key) (out_of cs key) h (λ e. rw e at n.0)
                  (λ e. rw e at n.1);
          above = λ a. r.2.above (add_session-IsAbove k (in_or i 0) (in_or o 0) h a);
        },
      )
