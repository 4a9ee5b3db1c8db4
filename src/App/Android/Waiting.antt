-- ===== src/App/Android/Waiting.antt =====
-- EmailPasswordActivity.java: when the sign-in screen stays behind its progress bar.
use study_hours.App.Android.Accounts.{Form, validate_form}
use study_hours.App.Android.SignInScreen.{
  Activity, Request, creating, signing_in, update_ui, click_create, click_sign_in, on_complete,
}
use study_hours.Common.{
  ℕ, ◌<◌, ◌≡◌, ◌↔◌, refl, Bool, true, false, not, ◌&&◌, Option, none, some, length, ltb, Bool-cases,
  inl, inr, arith,
}

abbrev pub waits : Option Request → Bool
waits none = false
waits (some r) = true

-- The progress bar is shown while nothing is waited for.
abbrev pub stuck : Activity → Bool
stuck a = a.progress_bar && not (waits a.request)

create_stuck :
    (form : Form) (a : Activity)
    → a.progress_bar ≡ false
    → a.request ≡ none
    → stuck (click_create form a) ≡ (validate_form form && ltb (length form.password) 6)
create_stuck form a p r = elim (Bool-cases (validate_form form)) [
  | inl e ↦ elim (Bool-cases (ltb (length form.password) 6)) [
    | inl q ↦ rw (e, q, r) refl
    | inr q ↦ rw (e, q) refl
  ]
  | inr e ↦ rw (e, p) refl
]

sign_in_stuck :
    (form : Form) (a : Activity) → a.progress_bar ≡ false → stuck (click_sign_in form a) ≡ false
sign_in_stuck form a p = elim (Bool-cases (validate_form form)) [
  | inl e ↦ rw e refl
  | inr e ↦ rw (e, p) refl
]

both-true : (b : Bool) (n : ℕ) → ((b && ltb n 6) ≡ true) ↔ ((b ≡ true) × (n < 6))
both-true true n = ground arith
both-true false n = ground arith

-- The answer was taken, and the bar with it.
abbrev pub IsAnswered : Option Activity → Type 0
IsAnswered o = (c : Activity) × (o ≡ some c) × (c.progress_bar ≡ false) × (c.request ≡ none)

signing_in-IsAnswered : (r : Option Bool) (b : Activity) → IsAnswered (on_complete signing_in r b)
signing_in-IsAnswered none b = (record (update_ui none b) { request = none }, refl, refl, refl)
signing_in-IsAnswered (some v) b = (
  record (update_ui (some v) (record b { current_user = some v })) {
    request = none;
    finished = true;
  },
  refl,
  refl,
  refl,
)

-- Where the progress bar is hidden and nothing is waited for, a click on "Create Account" leaves the screen behind a progress bar with
-- nothing to wait for exactly where both fields are filled in and the password has fewer than six
-- characters; a click on "Sign In" never does; and each answer to a sign-in, and each failure to
-- create an account, takes the bar away.
pub stuck-click_create :
    (form : Form) (a : Activity)
    → a.progress_bar ≡ false
    → a.request ≡ none
    → ((stuck (click_create form a) ≡ true)
        ↔ ((validate_form form ≡ true) × (length form.password < 6)))
      × (stuck (click_sign_in form a) ≡ false)
      × ((r : Option Bool) (b : Activity) → IsAnswered (on_complete signing_in r b))
      × ((b : Activity) → IsAnswered (on_complete (creating form) none b))
stuck-click_create form a p r = (
  rw (create_stuck form a p r) (both-true (validate_form form) (length form.password)),
  sign_in_stuck form a p,
  signing_in-IsAnswered,
  λ b. (record (update_ui none b) { request = none }, refl, refl, refl),
)
