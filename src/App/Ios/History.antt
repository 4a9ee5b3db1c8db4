-- ===== src/App/Ios/History.antt =====
-- ViewController.swift and Session.swift: the list of the user's sessions. A row's text is the
-- formatting of its two times, which is UIKit's and Foundation's.
use study_hours.App.Dict.{insert, lookup}
use study_hours.App.Ios.Record.{in_or}
use study_hours.App.Node.{Child, total_hours, num_sessions, sister_name, session, other}
use study_hours.Common.{
  ℕ, ◌+◌, true, false, Option, none, some, List, [], ◌∷◌, length, ◌==◌, if◌then◌else◌,
}

pub record Session : Type 0 where
  pub in_time : ℕ
  pub out_time : ℕ

-- The label of the total hours, which says nothing at first, and the dictionary.
pub record History (D : Type 0) : Type 0 where
  pub total_text : Option D
  pub sessions : List (ℕ × Session)

abbrev pub no_history : {D : Type 0} → History D
no_history = record { total_text = none; sessions = [] }

module _ {D : Type 0} where
  -- A child that is a session, where its `out` is not 0. The key of another one is no integer, and
  -- its forced unwrap crashes.
  abbrev pub add_session : ℕ → ℕ → ℕ → History D → History D
  add_session k i o h =
      if o == 0
      then h
      else record h { sessions = insert k (record { in_time = i; out_time = o }) h.sessions }

  -- The observer of viewDidLoad.
  abbrev pub on_value : List (Child D) → History D → Option (History D)
  on_value [] h = some h
  on_value (total_hours d ∷ cs) h = on_value cs (record h { total_text = some d })
  on_value (num_sessions n ∷ cs) h = on_value cs h
  on_value (sister_name s ∷ cs) h = on_value cs h
  on_value (session k i o ∷ cs) h = on_value cs (add_session k (in_or i 0) (in_or o 0) h)
  on_value (other i o ∷ cs) h = elim (in_or o 0 == 0) [ true ↦ on_value cs h | false ↦ none ]

  -- tableView(_:numberOfRowsInSection:), and the session of tableView(_:cellForRowAt:).
  abbrev pub number_of_rows : History D → ℕ
  number_of_rows h = length h.sessions

  abbrev pub cell_for_row : ℕ → History D → Option Session
  cell_for_row row h = lookup h.sessions (row + 1)
