-- ===== src/App/Node.antt =====
-- The node `hours/<uid>` of the Firebase database, as both apps read and write it: its children
-- (RecordViewController.swift, ViewController.swift, HomeFragment.java, GalleryFragment.java),
-- and the writes with the effect that Firebase documents for them.
use study_hours.App.Text.{Text}
use study_hours.Common.{
  ℕ, ◌≡◌, Bool, true, false, Option, none, some, List, [], ◌∷◌, ◌==◌, if◌then◌else◌, ◌||◌,
}

-- A child of the node. A key that is an integer stands for a session; a missing `in` or `out` is
-- `none`. No other key is used by the apps.
pub data Child (D : Type 0) : Type 0 where
  total_hours : D → Child D
  num_sessions : ℕ → Child D
  sister_name : Text → Child D
  session : ℕ → Option ℕ → Option ℕ → Child D
  other : Option ℕ → Option ℕ → Child D

-- What the apps can read of a node.
pub record View (D : Type 0) : Type 0 where
  pub total : Option D
  pub count : Option ℕ
  pub name : Option Text
  pub in_at : ℕ → Option ℕ
  pub out_at : ℕ → Option ℕ

module _ {D : Type 0} where
  abbrev pub total_of : List (Child D) → Option D
  total_of [] = none
  total_of (total_hours d ∷ cs) = some d
  total_of (num_sessions n ∷ cs) = total_of cs
  total_of (sister_name s ∷ cs) = total_of cs
  total_of (session k i o ∷ cs) = total_of cs
  total_of (other i o ∷ cs) = total_of cs

  abbrev pub count_of : List (Child D) → Option ℕ
  count_of [] = none
  count_of (total_hours d ∷ cs) = count_of cs
  count_of (num_sessions n ∷ cs) = some n
  count_of (sister_name s ∷ cs) = count_of cs
  count_of (session k i o ∷ cs) = count_of cs
  count_of (other i o ∷ cs) = count_of cs

  abbrev pub name_of : List (Child D) → Option Text
  name_of [] = none
  name_of (total_hours d ∷ cs) = name_of cs
  name_of (num_sessions n ∷ cs) = name_of cs
  name_of (sister_name s ∷ cs) = some s
  name_of (session k i o ∷ cs) = name_of cs
  name_of (other i o ∷ cs) = name_of cs

  abbrev pub in_of : List (Child D) → ℕ → Option ℕ
  in_of [] key = none
  in_of (total_hours d ∷ cs) key = in_of cs key
  in_of (num_sessions n ∷ cs) key = in_of cs key
  in_of (sister_name s ∷ cs) key = in_of cs key
  in_of (session k i o ∷ cs) key = if k == key then i else in_of cs key
  in_of (other i o ∷ cs) key = in_of cs key

  abbrev pub out_of : List (Child D) → ℕ → Option ℕ
  out_of [] key = none
  out_of (total_hours d ∷ cs) key = out_of cs key
  out_of (num_sessions n ∷ cs) key = out_of cs key
  out_of (sister_name s ∷ cs) key = out_of cs key
  out_of (session k i o ∷ cs) key = if k == key then o else out_of cs key
  out_of (other i o ∷ cs) key = out_of cs key

  abbrev pub view_of : List (Child D) → View D
  view_of cs = record {
    total = total_of cs;
    count = count_of cs;
    name = name_of cs;
    in_at = in_of cs;
    out_at = out_of cs;
  }

abbrev pub is_some : Option ℕ → Bool
is_some none = false
is_some (some v) = true

-- What Firebase promises of every node: no key stands twice in it, and no child is empty.
abbrev pub IsNode : {D : Type 0} → List (Child D) → Type 0
IsNode [] = Unit
IsNode (total_hours d ∷ cs) = (total_of cs ≡ none) × IsNode cs
IsNode (num_sessions n ∷ cs) = (count_of cs ≡ none) × IsNode cs
IsNode (sister_name s ∷ cs) = (name_of cs ≡ none) × IsNode cs
IsNode (session k i o ∷ cs) =
    (in_of cs k ≡ none) × (out_of cs k ≡ none) × ((is_some i || is_some o) ≡ true) × IsNode cs
IsNode (other i o ∷ cs) = IsNode cs

-- No child with a key of neither app.
abbrev pub IsPlain : {D : Type 0} → List (Child D) → Type 0
IsPlain [] = Unit
IsPlain (total_hours d ∷ cs) = IsPlain cs
IsPlain (num_sessions n ∷ cs) = IsPlain cs
IsPlain (sister_name s ∷ cs) = IsPlain cs
IsPlain (session k i o ∷ cs) = IsPlain cs
IsPlain (other i o ∷ cs) = true ≡ false

-- The calls of setValue. `set_node` replaces the whole node, as SignUp of LoginViewController does;
-- `set_session` stores a StudySession object.
pub data Write (D : Type 0) : Type 0 where
  set_node : Text → ℕ → D → Write D
  set_total : D → Write D
  set_count : ℕ → Write D
  set_name : Text → Write D
  set_session : ℕ → ℕ → ℕ → Write D
  set_in : ℕ → ℕ → Write D
  set_out : ℕ → ℕ → Write D
  remove_session : ℕ → Write D

-- A leaf map with another value at one key.
abbrev pub put : ℕ → Option ℕ → (ℕ → Option ℕ) → ℕ → Option ℕ
put k v m key = if k == key then v else m key

module _ {D : Type 0} where
  -- A write changes the leaves that it names, and no others.
  abbrev pub apply : Write D → View D → View D
  apply (set_node s n d) v = record {
    total = some d;
    count = some n;
    name = some s;
    in_at = λ k. none;
    out_at = λ k. none;
  }
  apply (set_total d) v = record v { total = some d }
  apply (set_count n) v = record v { count = some n }
  apply (set_name s) v = record v { name = some s }
  apply (set_session k i o) v = record v {
    in_at = put k (some i) v.in_at;
    out_at = put k (some o) v.out_at;
  }
  apply (set_in k i) v = record v { in_at = put k (some i) v.in_at }
  apply (set_out k o) v = record v { out_at = put k (some o) v.out_at }
  apply (remove_session k) v = record v { in_at = put k none v.in_at; out_at = put k none v.out_at }

  abbrev pub apply_all : List (Write D) → View D → View D
  apply_all [] v = v
  apply_all (w ∷ ws) v = apply_all ws (apply w v)
