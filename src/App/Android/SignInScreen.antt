-- ===== src/App/Android/SignInScreen.antt =====
-- EmailPasswordActivity.java and BaseActivity.java: the views of the sign-in screen, its buttons,
-- and what the answers of the authentication do to it. A use of a null user is a crash.
use study_hours.App.Android.Accounts.{Form, validate_form, code_of}
use study_hours.App.Text.{Integer, is_empty}
use study_hours.Common.{Bool, true, false, not, Option, none, some, length, ltb, if◌then◌else◌}

-- What is waited for, with the form at the click.
pub data Request : Type 0 where
  creating : Form → Request
  signing_in : Request
  verifying : Request

-- A user is known by whether its address is verified.
pub record Activity : Type 0 where
  pub progress_bar : Bool
  pub fields_shown : Bool
  pub signed_in_shown : Bool
  pub verify_enabled : Bool
  pub email_error : Bool
  pub password_error : Bool
  pub current_user : Option Bool
  pub request : Option Request
  pub finished : Bool

-- updateUI, which hides the progress bar first.
abbrev pub update_ui : Option Bool → Activity → Activity
update_ui none a = record a { progress_bar = false; fields_shown = true; signed_in_shown = false }
update_ui (some verified) a = record a {
  progress_bar = false;
  fields_shown = false;
  signed_in_shown = true;
  verify_enabled = not verified;
}

abbrev pub on_start : Activity → Activity
on_start a = update_ui a.current_user a

-- validateForm sets or clears both errors.
abbrev pub show_errors : Form → Activity → Activity
show_errors form a = record a {
  email_error = is_empty form.email;
  password_error = is_empty form.password;
}

-- createAccount up to its request: a short password leaves it behind the progress bar.
abbrev pub click_create : Form → Activity → Activity
click_create form a =
    if validate_form form
    then if ltb (length form.password) 6
      then record (show_errors form a) { progress_bar = true }
      else record (show_errors form a) { progress_bar = true; request = some (creating form) }
    else show_errors form a

abbrev pub click_sign_in : Form → Activity → Activity
click_sign_in form a =
    if validate_form form
    then record (show_errors form a) { progress_bar = true; request = some signing_in }
    else show_errors form a

abbrev pub sign_out : Activity → Activity
sign_out a = update_ui none (record a { current_user = none })

abbrev pub verify_from : Option Bool → Activity → Option Activity
verify_from none a = none
verify_from (some v) a = some (record a { verify_enabled = false; request = some verifying })

abbrev pub send_email_verification : Activity → Option Activity
send_email_verification a = verify_from a.current_user a

-- The listener of a new account: an admin code that is no integer crashes it.
abbrev pub on_created : Option Integer → Bool → Activity → Option Activity
on_created none verified a = none
on_created (some code) verified a =
    some (record (update_ui (some verified) (record a { current_user = some verified })) {
      request = none;
      finished = true;
    })

-- onComplete of each request, for a failure and for a success with its user.
abbrev pub on_complete : Request → Option Bool → Activity → Option Activity
on_complete (creating form) none a = some (record (update_ui none a) { request = none })
on_complete (creating form) (some verified) a = on_created (code_of form.admin_code) verified a
on_complete signing_in none a = some (record (update_ui none a) { request = none })
on_complete signing_in (some verified) a =
    some (record (update_ui (some verified) (record a { current_user = some verified })) {
      request = none;
      finished = true;
    })
on_complete verifying r a = some (record a { verify_enabled = true; request = none })
