-- ===== src/App/Android/Accounts.antt =====
-- EmailPasswordActivity.java and Admin.java: signing in and creating an account. The answers of the
-- authentication and of the database are arguments; an exception ends a handler in a crash.
use study_hours.App.Database.{Doubles}
use study_hours.App.Node.{Write, set_total, set_count, set_name}
use study_hours.App.Text.{Text, Integer, pos, same, is_empty, read_integer}
use study_hours.Common.{
  Bool, not, ◌&&◌, Option, none, some, List, [], ◌∷◌, length, ltb, if◌then◌else◌,
}

pub record Form : Type 0 where
  pub email : Text
  pub password : Text
  pub display_name : Text
  pub admin_code : Text

-- validateForm: whether it returns true; a field that is empty gets an error.
abbrev pub validate_form : Form → Bool
validate_form form = not (is_empty form.email) && not (is_empty form.password)

-- How a handler ends: an error at a field, a toast, a crash once the user exists, or the main
-- screen; for a new account with the writes under `hours/<uid>` and the code that is compared.
pub data Outcome (D : Type 0) : Type 0 where
  invalid : Bool → Bool → Outcome D
  short_password : Outcome D
  failed : Outcome D
  crashed : Outcome D
  signed_in : Outcome D
  created : List (Write D) → Integer → Outcome D

-- The admin code, where it is a Long at all.
abbrev pub code_of : Text → Option Integer
code_of [] = some (pos 0)
code_of (c ∷ cs) = read_integer (c ∷ cs)

-- onDataChange for `adminCode`: `admin` of the Admin that it stores. Unboxing null is a crash.
abbrev pub admin_value : Integer → Option Integer → Option Bool
admin_value code none = none
admin_value code (some stored) = some (same code stored)

abbrev pub sign_in : {D : Type 0} → Form → Bool → Outcome D
sign_in form successful =
    if validate_form form
    then (if successful then signed_in else failed)
    else invalid (is_empty form.email) (is_empty form.password)

module _ (f : Doubles) where
  open f use {Double, of_tenths}

  abbrev pub new_node : Text → List (Write Double)
  new_node name = set_total (of_tenths 0) ∷ set_count 0 ∷ set_name name ∷ []

  -- The code is read before anything is stored.
  abbrev pub store_account : Option Integer → Text → Outcome Double
  store_account none name = crashed
  store_account (some code) name = created (new_node name) code

  abbrev pub create_account : Form → Bool → Outcome Double
  create_account form successful =
      if validate_form form
      then if ltb (length form.password) 6
        then short_password
        else if successful
        then store_account (code_of form.admin_code) form.display_name
        else failed
      else invalid (is_empty form.email) (is_empty form.password)
