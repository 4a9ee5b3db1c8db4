-- ===== src/App/Ios/Phone.antt =====
-- The record screen over its database: what the user, Firebase and the alert can call, one at a
-- time. Firebase answers each request once. The button is pressed, and the observer called, only
-- while no answer is waited for: a second press before the first value comes is not in these runs.
use study_hours.App.Database.{Database, Doubles, Format, view, write_all}
use study_hours.App.Ios.Record.{
  Screen, Task, Reply, first_value, second_value, confirm, start_recording, on_first_value,
  on_second_value, on_answer, observe_value,
}
use study_hours.Common.{ℕ, Bool, Option, none, some, List, [], ◌∷◌}

pub record Phone (D S : Type 0) : Type 0 where
  pub screen : Screen
  pub task : Option (Task D)
  pub state : S

-- A press of the button, a value from Firebase, an answer to the alert, a call of the observer.
pub data Event : Type 0 where
  press : Event
  value : Event
  answer : Bool → Event
  observed : Event

module _ (f : Doubles) (fmt : Format) (db : Database f.Double) where
  open f use {Double}
  open db use {State, snapshot}

  -- A handler's writes take effect; a crash ends the run.
  abbrev pub respond : Option (Reply Double) → State → Option (Phone Double State)
  respond none s = none
  respond (some r) s =
      some (record { screen = r.screen; task = r.task; state = write_all db r.writes s })

  abbrev pub refresh : Option Screen → State → Option (Phone Double State)
  refresh none s = none
  refresh (some sc) s = some (record { screen = sc; task = none; state = s })

  -- What is waited for decides which events can come; any other is left out of the run.
  abbrev pub dispatch :
      Option (Task Double) → Event → ℕ → Screen → State → Option (Phone Double State)
  dispatch none press now sc s =
      some (record { screen = start_recording sc; task = some first_value; state = s })
  dispatch none value now sc s = some (record { screen = sc; task = none; state = s })
  dispatch none (answer a) now sc s = some (record { screen = sc; task = none; state = s })
  dispatch none observed now sc s = refresh (observe_value (snapshot s) now sc) s
  dispatch (some first_value) value now sc s = respond (on_first_value (view db s) now sc) s
  dispatch (some first_value) e now sc s =
      some (record { screen = sc; task = some first_value; state = s })
  dispatch (some (second_value n total)) value now sc s =
      respond (on_second_value n total (view db s) now sc) s
  dispatch (some (second_value n total)) e now sc s =
      some (record { screen = sc; task = some (second_value n total); state = s })
  dispatch (some (confirm i n out total)) (answer a) now sc s =
      respond (on_answer f fmt a i n out total sc) s
  dispatch (some (confirm i n out total)) e now sc s =
      some (record { screen = sc; task = some (confirm i n out total); state = s })

  abbrev pub handle : Event → ℕ → Phone Double State → Option (Phone Double State)
  handle e now p = dispatch p.task e now p.screen p.state

  -- A run over the events and the times at which they come.
  abbrev pub run : List (Event × ℕ) → Phone Double State → Option (Phone Double State)
  run [] p = some p
  run ((e, now) ∷ es) p = elim (handle e now p) [ none ↦ none | some q ↦ run es q ]
