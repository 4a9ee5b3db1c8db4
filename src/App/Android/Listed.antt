-- ===== src/App/Android/Listed.antt =====
-- GalleryFragment.java: what its loop takes from the children.
use mathlib.Core.Option.{map as map_option}
use study_hours.App.Android.History.{Gallery, read_children}
use study_hours.App.Dict.{lookup, insert, lookup-insert, insert-IsAbove, IsAbove}
use study_hours.App.Ios.History.{Session}
use study_hours.App.Listing.{both, pick}
use study_hours.App.Node.{
  Child, IsNode, IsPlain, total_of, in_of, out_of, is_some, total_hours, num_sessions, sister_name,
  session, other,
}
use study_hours.Common.{
  ℕ, ◌≡◌, refl, ap, ◌∙◌, Option, none, some, List, [], ◌∷◌, ◌==◌, ==_iff, Bool-cases, inl, inr,
  arith, if◌then◌else◌,
}

rows-insert :
    (k key i o : ℕ) (a b : Option ℕ) (d : List (ℕ × Session))
    → (k ≡ key → a ≡ none)
    → (k ≡ key → b ≡ none)
    → pick (both b a) (lookup (insert k (record { in_time = i; out_time = o }) d) key)
      ≡ pick (both (if k == key then some o else b) (if k == key then some i else a)) (lookup d key)
rows-insert k key i o a b d na nb =
    rw (lookup-insert k (record { in_time = i; out_time = o }) d key)
      (elim (Bool-cases (k == key)) [
        | inl e ↦ rw (na ((==_iff k key).0 e), nb ((==_iff k key).0 e), e) refl
        | inr e ↦ rw e refl
      ])

module _ {D F : Type 0} (to_float : D → F) where
  -- What the loop makes of a map and the children.
  pub record Reads (cs : List (Child D)) (h g : Gallery F) : Type 0 where
    pub text : g.total_text ≡ pick (map_option to_float (total_of cs)) h.total_text
    pub rows :
        (key : ℕ) → lookup g.map key ≡ pick (both (out_of cs key) (in_of cs key)) (lookup h.map key)
    pub above : IsAbove 0 h.map → IsAbove 0 g.map

  abbrev pub ReadsTo : List (Child D) → Gallery F → Type 0
  ReadsTo cs h = (g : Gallery F) × (read_children to_float cs h ≡ some g) × Reads cs h g

  -- Every session has both of its times, or neither.
  abbrev pub IsClosed : List (Child D) → Type 0
  IsClosed cs = (key : ℕ) → is_some (in_of cs key) ≡ is_some (out_of cs key)

  IsClosed-tail :
      (k : ℕ) (i o : Option ℕ) (cs : List (Child D))
      → IsNode (session k i o ∷ cs)
      → IsClosed (session k i o ∷ cs)
      → IsClosed cs
  IsClosed-tail k i o cs n c key = elim (Bool-cases (k == key)) [
    | inl e ↦
        let q : k ≡ key = (==_iff k key).0 e in
        let none_in : in_of cs key ≡ none = rw q at n.0 in
        let none_out : out_of cs key ≡ none = rw q at n.1 in rw (none_in, none_out) refl
    | inr e ↦ rw e at (c key)
  ]

  head-IsClosed :
      (k : ℕ) (i o : Option ℕ) (cs : List (Child D))
      → IsClosed (session k i o ∷ cs)
      → is_some i ≡ is_some o
  head-IsClosed k i o cs c = ground (arith, c k)

  pub read_children_lem :
      (cs : List (Child D)) (h : Gallery F) → IsNode cs → IsPlain cs → IsClosed cs → ReadsTo cs h
  read_children_lem [] h n p c =
      (h, refl, record { text = refl; rows = λ key. refl; above = λ a. a })
  read_children_lem (total_hours d ∷ cs) h n p c =
      let r : ReadsTo cs (record h { total_text = some (to_float d) }) =
        read_children_lem cs (record h { total_text = some (to_float d) }) n.1 p c in
      (
        r.0,
        r.1,
        record {
          text = r.2.text ∙ ap (λ t. pick (map_option to_float t) (some (to_float d))) n.0;
          rows = r.2.rows;
          above = r.2.above;
        },
      )
  read_children_lem (num_sessions m ∷ cs) h n p c =
      let r : ReadsTo cs h = read_children_lem cs h n.1 p c in
      (r.0, r.1, record { text = r.2.text; rows = r.2.rows; above = r.2.above })
  read_children_lem (sister_name s ∷ cs) h n p c =
      let r : ReadsTo cs h = read_children_lem cs h n.1 p c in
      (r.0, r.1, record { text = r.2.text; rows = r.2.rows; above = r.2.above })
  read_children_lem (other i o ∷ cs) h n p c = cc
  read_children_lem (session k none none ∷ cs) h n p c = cc n.2
  read_children_lem (session k none (some o) ∷ cs) h n p c = cc (head-IsClosed k none (some o) cs c)
  read_children_lem (session k (some i) none ∷ cs) h n p c = cc (head-IsClosed k (some i) none cs c)
  read_children_lem (session k (some i) (some o) ∷ cs) h n p c =
      let s : Session = record { in_time = i; out_time = o } in
      let r : ReadsTo cs (record h { map = insert k s h.map }) =
        read_children_lem cs (record h { map = insert k s h.map }) n.3 p
          (IsClosed-tail k (some i) (some o) cs n c) in
      (
        r.0,
        r.1,
        record {
          text = r.2.text;
          rows = λ key.
              r.2.rows key
              ∙ rows-insert k key i o (in_of cs key) (out_of cs key) h.map (λ e. rw e at n.0)
                  (λ e. rw e at n.1);
          above = λ a. r.2.above (insert-IsAbove 0 k s h.map a (omega arith));
        },
      )

  -- A child with no check-out time ends the loop in a crash, wherever it stands.
  pub read_children-running :
      (cs : List (Child D)) (h : Gallery F) (key t : ℕ)
      → in_of cs key ≡ some t
      → out_of cs key ≡ none
      → read_children to_float cs h ≡ none
  read_children-running [] h key t i o = cc
  read_children-running (total_hours d ∷ cs) h key t i o =
      read_children-running cs (record h { total_text = some (to_float d) }) key t i o
  read_children-running (num_sessions m ∷ cs) h key t i o = read_children-running cs h key t i o
  read_children-running (sister_name s ∷ cs) h key t i o = read_children-running cs h key t i o
  read_children-running (other j p ∷ cs) h key t i o = refl
  read_children-running (session k none p ∷ cs) h key t i o = refl
  read_children-running (session k (some j) none ∷ cs) h key t i o = refl
  read_children-running (session k (some j) (some p) ∷ cs) h key t i o = ground (
    arith,
    i,
    o,
    read_children-running cs
        (record h { map = insert k (record { in_time = j; out_time = p }) h.map }) key t,
  )
