-- ===== src/App/Android/History.antt =====
-- GalleryFragment.java: the list of a user's sessions. A row's text is the formatting of its two
-- times, and the total's is that of the Float, which is Java's. Unboxing null, or reading a key that
-- is no integer, is a crash.
use study_hours.App.Dict.{insert, values}
use study_hours.App.Ios.History.{Session}
use study_hours.App.Node.{Child, total_hours, num_sessions, sister_name, session, other}
use study_hours.Common.{ℕ, Option, none, some, List, [], ◌∷◌}

pub record Gallery (D : Type 0) : Type 0 where
  pub total_text : Option D
  pub map : List (ℕ × Session)

abbrev pub no_gallery : {D : Type 0} → Gallery D
no_gallery = record { total_text = none; map = [] }

-- `to_float` is Firebase's reading of a number as a Float, which may round it.
module _ {D F : Type 0} (to_float : D → F) where
  -- The loop of onDataChange.
  abbrev pub read_children : List (Child D) → Gallery F → Option (Gallery F)
  read_children [] g = some g
  read_children (total_hours d ∷ cs) g =
      read_children cs (record g { total_text = some (to_float d) })
  read_children (num_sessions n ∷ cs) g = read_children cs g
  read_children (sister_name s ∷ cs) g = read_children cs g
  read_children (session k none o ∷ cs) g = none
  read_children (session k (some i) none ∷ cs) g = none
  read_children (session k (some i) (some o) ∷ cs) g =
      read_children cs (record g { map = insert k (record { in_time = i; out_time = o }) g.map })
  read_children (other i o ∷ cs) g = none

  -- onDataChange: the label of the total, and the rows in the order of the keys.
  abbrev pub on_data_change : List (Child D) → Option (Option F × List Session)
  on_data_change cs = elim (read_children cs no_gallery) [
    | none ↦ none
    | some g ↦ some (g.total_text, values g.map)
  ]
