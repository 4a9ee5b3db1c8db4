-- ===== src/App/Ios/Login.antt =====
-- LoginViewController.swift: SignIn and SignUp, and SignUp's callback for the admin code; the
-- login screen that appears and moves for the keyboard; and logout of RecordViewController.swift. The
-- authentication itself is Firebase's: its answer is an argument.
use study_hours.App.Database.{Doubles}
use study_hours.App.Node.{Write, set_node}
use study_hours.App.Text.{Text, Integer, same, read_integer}
use study_hours.Common.{
  ℕ, ◌≡◌, refl, ◌==◌, if◌then◌else◌, Bool, true, false, Option, none, some, List, [], ◌∷◌,
}

-- Where the screen goes: the segue to the main or the login screen, or an alert.
pub data Shown : Type 0 where
  main_screen : Shown
  login_screen : Shown
  alert : Shown

abbrev pub sign_in : Bool → Shown
sign_in true = main_screen
sign_in false = alert

-- viewDidAppear: a user that is signed in goes on at once.
abbrev pub view_did_appear : Option Text → Option Shown
view_did_appear none = none
view_did_appear (some uid) = some main_screen

-- logout: the user that is left, where signing out may throw, and the screen.
abbrev pub logout : Bool → Option Text → Option Text × Shown
logout true user = (user, login_screen)
logout false user = (none, login_screen)

-- How far the view is moved up; a notification without the keyboard's size moves nothing.
abbrev pub keyboard_will_show : Option ℕ → ℕ → ℕ
keyboard_will_show none up = up
keyboard_will_show (some height) up = if up == 0 then height else up

abbrev pub keyboard_will_hide : ℕ → ℕ
keyboard_will_hide up = if up == 0 then up else 0

-- A logout that throws comes back to the main screen; another one stays.
view_did_appear-logout :
    (fails : Bool) (uid : Text)
    → view_did_appear (logout fails (some uid)).0 ≡ (if fails then some main_screen else none)
view_did_appear-logout true uid = refl
view_did_appear-logout false uid = refl

-- Equality of two optional integers.
abbrev pub codes_equal : Option Integer → Option Integer → Bool
codes_equal none none = true
codes_equal none (some n) = false
codes_equal (some m) none = false
codes_equal (some m) (some n) = same m n

-- The callback: the `admin` that it stores for the user, by the database's code and the input's.
abbrev pub admin_post : Option Integer → Option Integer → Bool
admin_post stored input = codes_equal stored input

-- The screen that follows, the writes under `hours/<uid>`, and the code that the callback captures.
pub record SignUp (D : Type 0) : Type 0 where
  pub shown : Shown
  pub hours : List (Write D)
  pub input : Option (Option Integer)

module _ (f : Doubles) where
  abbrev pub sign_up : Bool → Text → Text → SignUp f.Double
  sign_up true admin_code sister_name = record {
    shown = main_screen;
    hours = set_node sister_name 0 (f.of_tenths 0) ∷ [];
    input = some (read_integer admin_code);
  }
  sign_up false admin_code sister_name = record { shown = alert; hours = []; input = none }
