-- ===== src/App/Android/Sisters.antt =====
-- SistersHoursFragment.java: the list of all users, each a label that opens a user's hours. The
-- printing of a double is Java's, a parameter. Unboxing a null total is a crash.
use study_hours.App.Node.{View}
use study_hours.App.Text.{Text}
use study_hours.Common.{
  Bool, true, false, ◌&&◌, Option, none, some, List, [], ◌∷◌, ◌++◌, ◌==◌, if◌then◌else◌,
}

-- equals of two strings.
abbrev pub equals : Text → Text → Bool
equals [] [] = true
equals [] (d ∷ ds) = false
equals (c ∷ cs) [] = false
equals (c ∷ cs) (d ∷ ds) = (c == d) && equals cs ds

-- HashMap.get and HashMap.put for text keys.
abbrev pub get : List (Text × Text) → Text → Option Text
get [] key = none
get ((k, v) ∷ m) key = if equals k key then some v else get m key

abbrev pub put_text : Text → Text → List (Text × Text) → List (Text × Text)
put_text key v [] = (key, v) ∷ []
put_text key v ((k, w) ∷ m) = if equals k key then (k, v) ∷ m else (k, w) ∷ put_text key v m

-- The text that Java appends for a null reference.
abbrev pub or_null : Option Text → Text
or_null none = 110 ∷ 117 ∷ 108 ∷ 108 ∷ []
or_null (some t) = t

-- A child of `hours`: its key, which is the uid, and its node.
pub record User (D : Type 0) : Type 0 where
  pub uid : Text
  pub node : View D

module _ {D : Type 0} (print : D → Text) where
  abbrev pub label : Option Text → D → Text
  label name total = or_null name ++ (58 ∷ 32 ∷ print total)

  -- The loop of onDataChange; the rows of the list are the keys of the map.
  abbrev pub read_users : List (User D) → List (Text × Text) → Option (List (Text × Text))
  read_users [] m = some m
  read_users (u ∷ us) m = elim u.node.total [
    | none ↦ none
    | some t ↦ read_users us (put_text (label u.node.name t) u.uid m)
  ]

-- onItemClick: the UID that the opened fragment gets, for the label of the row.
abbrev pub on_item_click : Text → List (Text × Text) → Option Text
on_item_click row m = get m row
