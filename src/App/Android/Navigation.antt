-- ===== src/App/Android/Navigation.antt =====
-- MainActivity.java: the menu, the fragments that it shows, and logging out. A use of a null user
-- is a crash.
use study_hours.App.Text.{Text}
use study_hours.Common.{◌≡◌, refl, ap, Bool, true, false, Option, none, some, List, [], ◌∷◌, All}

pub data Item : Type 0 where
  nav_record : Item
  nav_history : Item
  nav_sisters_hours : Item
  nav_logout : Item
  other_item : Item

-- A fragment; the history has the UID of its arguments.
pub data Page : Type 0 where
  home : Page
  gallery : Text → Page
  sisters_hours : Page

-- mFirebaseUser, the field `fragment`, the fragments of the back stack, the drawer, and whether the
-- activity has made way for the sign-in screen.
pub record Main : Type 0 where
  pub user : Option Text
  pub fragment : Option Page
  pub stack : List Page
  pub drawer_open : Bool
  pub finished : Bool

-- onCreate: with a user and no saved state the first fragment is added, but the field stays null.
abbrev pub on_create : Option Text → Bool → List Page → Main
on_create none saved old = record {
  user = none;
  fragment = none;
  stack = old;
  drawer_open = false;
  finished = true;
}
on_create (some uid) true old = record {
  user = some uid;
  fragment = none;
  stack = old;
  drawer_open = false;
  finished = false;
}
on_create (some uid) false old = record {
  user = some uid;
  fragment = none;
  stack = home ∷ [];
  drawer_open = false;
  finished = false;
}

-- The end of displayView: the fragment of the field, if there is one, is shown.
abbrev pub show_from : Option Page → Main → Main
show_from none m = record m { drawer_open = false }
show_from (some p) m = record m { stack = p ∷ m.stack; drawer_open = false }

abbrev pub show_page : Page → Main → Main
show_page p m = show_from (some p) (record m { fragment = some p })

abbrev pub show_history : Option Text → Main → Option Main
show_history none m = none
show_history (some uid) m = some (show_page (gallery uid) m)

-- displayView; an item that it does not know shows the fragment of the field again.
abbrev pub display_view : Item → Main → Option Main
display_view nav_record m = some (show_page home m)
display_view nav_history m = show_history m.user m
display_view nav_sisters_hours m = some (show_page sisters_hours m)
display_view nav_logout m = some (show_from m.fragment m)
display_view other_item m = some (show_from m.fragment m)

-- onNavigationItemSelected.
abbrev pub on_item_selected : Item → Main → Option Main
on_item_selected nav_logout m = some (record m { user = none; finished = true })
on_item_selected item m = display_view item m

abbrev pub pop : List Page → List Page
pop [] = []
pop (p ∷ ps) = ps

-- onBackPressed: an open drawer is closed, else the last fragment is taken away.
abbrev pub back_from : Bool → Main → Main
back_from true m = record m { drawer_open = false }
back_from false m = record m { stack = pop m.stack }

abbrev pub on_back_pressed : Main → Main
on_back_pressed m = back_from m.drawer_open m

-- A page that shows no other user's history.
abbrev pub IsOwn : Text → Page → Type 0
IsOwn uid home = Unit
IsOwn uid (gallery u) = u ≡ uid
IsOwn uid sisters_hours = Unit

abbrev pub IsOwnField : Text → Option Page → Type 0
IsOwnField uid none = Unit
IsOwnField uid (some p) = IsOwn uid p

abbrev pub IsOwnMain : Text → Main → Type 0
IsOwnMain uid m = (m.user ≡ some uid) × IsOwnField uid m.fragment × All (IsOwn uid) m.stack

show_from-IsOwnMain :
    (uid : Text) (f : Option Page) (m : Main)
    → IsOwnMain uid m
    → IsOwnField uid f
    → IsOwnMain uid (show_from f m)
show_from-IsOwnMain uid none m h own = h
show_from-IsOwnMain uid (some p) m h own = (h.0, h.1, (own, h.2))

show_page-IsOwnMain :
    (uid : Text) (p : Page) (m : Main)
    → IsOwnMain uid m
    → IsOwn uid p
    → IsOwnMain uid (show_page p m)
show_page-IsOwnMain uid p m h own =
    show_from-IsOwnMain uid (some p) (record m { fragment = some p }) (h.0, own, h.2) own

-- While a user is signed in, displayView does not crash, and the menu shows no other user's history.
pub display_view-IsOwnMain :
    (uid : Text) (item : Item) (m : Main)
    → IsOwnMain uid m
    → (n : Main) × (display_view item m ≡ some n) × IsOwnMain uid n
display_view-IsOwnMain uid nav_record m h =
    (show_page home m, refl, show_page-IsOwnMain uid home m h tt)
display_view-IsOwnMain uid nav_history m h = (
  show_page (gallery uid) m,
  ap (λ u. show_history u m) h.0,
  show_page-IsOwnMain uid (gallery uid) m h refl,
)
display_view-IsOwnMain uid nav_sisters_hours m h =
    (show_page sisters_hours m, refl, show_page-IsOwnMain uid sisters_hours m h tt)
display_view-IsOwnMain uid nav_logout m h =
    (show_from m.fragment m, refl, show_from-IsOwnMain uid m.fragment m h h.1)
display_view-IsOwnMain uid other_item m h =
    (show_from m.fragment m, refl, show_from-IsOwnMain uid m.fragment m h h.1)
