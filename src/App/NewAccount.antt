-- ===== src/App/NewAccount.antt =====
-- EmailPasswordActivity.java against LoginViewController.swift, and against the hours recorded later.
use study_hours.App.Android.Accounts.{
  Form, Outcome, invalid, short_password, failed, crashed, signed_in, created, validate_form,
  code_of, admin_value, new_node, store_account, create_account,
}
use study_hours.App.Android.Rounds.{Round, play_all, recorded_all, IsSettled, play_all-IsSettled}
use study_hours.App.Android.Stopwatch.{Clock, StudySession, new_fragment}
use study_hours.App.Android.Submission.{admits, submit-none}
use study_hours.App.Bounds.{IsCounted, Reach-IsCounted}
use study_hours.App.Android.Submit.{submit}
use study_hours.App.Database.{Database, Doubles, Format, view, write_all, view-write_all}
use study_hours.App.Ios.Login.{sign_up, admin_post}
use study_hours.App.Ledger.{Ledger, node_of, empty}
use study_hours.App.Node.{Write, apply_all}
use study_hours.App.SignUp.{no_node, new-node_of, view-sign_up}
use study_hours.App.Text.{Text, Integer, pos, negsuc, same, read_integer}
use study_hours.Common.{
  ℕ, ◌≤◌, ◌≡◌, refl, sym, ap, ◌∙◌, Bool, true, false, not, if◌then◌else◌, Option, none, some, List,
  [], ◌∷◌, length, arith, ltb-false,
}

-- What an outcome writes under `hours/<uid>`.
abbrev pub writes_of : {D : Type 0} → Outcome D → List (Write D)
writes_of (invalid e p) = []
writes_of short_password = []
writes_of failed = []
writes_of crashed = []
writes_of signed_in = []
writes_of (created ws code) = ws

-- A form that the app sends to Firebase.
abbrev pub IsSent : Form → Type 0
IsSent form = (validate_form form ≡ true) × (6 ≤ length form.password)

admits-long : (d : ℕ) → admits d ≡ true → 1800000 ≤ d
admits-long d h = ground arith

same_sym : (m n : Integer) → same m n ≡ same n m
same_sym (pos m) (pos n) = ground arith
same_sym (pos m) (negsuc n) = refl
same_sym (negsuc m) (pos n) = refl
same_sym (negsuc m) (negsuc n) = ground arith

-- The `admin` that the Android app stores after an outcome, where it stores one.
abbrev pub android_admin : {D : Type 0} → Outcome D → Option Integer → Option Bool
android_admin (invalid e p) stored = none
android_admin short_password stored = none
android_admin failed stored = none
android_admin crashed stored = none
android_admin signed_in stored = none
android_admin (created ws code) stored = admin_value code stored

-- The one that the iOS app stores, by the code that its callback captures.
abbrev pub ios_admin : Option (Option Integer) → Option Integer → Option Bool
ios_admin none stored = none
ios_admin (some input) stored = some (admin_post stored input)

abbrev pub has_integer : Option Integer → Bool
has_integer none = false
has_integer (some n) = true

-- What the Android app is to store where the database has a code, from what the iOS app stores.
abbrev pub expected_admin : Text → Integer → Option Bool → Option Bool
expected_admin [] stored ios = some (same (pos 0) stored)
expected_admin (c ∷ cs) stored ios = if has_integer (read_integer (c ∷ cs)) then ios else none

module _ (f : Doubles) where
  create_account_lem :
      (form : Form)
      → IsSent form
      → create_account f form true ≡ store_account f (code_of form.admin_code) form.display_name
  create_account_lem form h = rw (h.0, ltb-false (length form.password) 6 h.1) refl

  admin_by_code :
      (o : Option Integer) (name : Text) (stored : Integer)
      → android_admin (store_account f o name) (some stored)
        ≡ (if has_integer o then some (admin_post (some stored) o) else none)
  admin_by_code none name stored = refl
  admin_by_code (some code) name stored = ap some (same_sym code stored)

  admin_by_text :
      (text name : Text) (stored : Integer)
      → android_admin (store_account f (code_of text) name) (some stored)
        ≡ expected_admin text stored (ios_admin (sign_up f true text name).input (some stored))
  admin_by_text [] name stored = refl
  admin_by_text (c ∷ cs) name stored = admin_by_code (read_integer (c ∷ cs)) name stored

  admin_by_input : (o : Option Integer) → admin_post none o ≡ not (has_integer o)
  admin_by_input none = refl
  admin_by_input (some code) = refl

  none-store_account :
      (o : Option Integer) (name : Text) → android_admin (store_account f o name) none ≡ none
  none-store_account none name = refl
  none-store_account (some code) name = refl

  -- For a form that is sent, where the database has a code: the two apps agree on who is an admin
  -- for an admin code that is an integer; for any other one that is not empty the Android app stores
  -- nothing, and for an empty one it compares 0, while the iOS app makes no admin of it. Where the
  -- database has no code, the Android app stores nothing, and the iOS app makes an admin of exactly
  -- those whose text is no integer.
  pub admin_value-admin_post :
      (form : Form) (stored : Integer)
      → IsSent form
      → (android_admin (create_account f form true) (some stored)
          ≡ expected_admin form.admin_code stored
              (ios_admin (sign_up f true form.admin_code form.display_name).input (some stored)))
        × (ios_admin (sign_up f true [] form.display_name).input (some stored) ≡ some false)
        × (android_admin (create_account f form true) none ≡ none)
        × (ios_admin (sign_up f true form.admin_code form.display_name).input none
            ≡ some (not (has_integer (read_integer form.admin_code))))
  unfolding read_integer
  admin_value-admin_post form stored sent = (
    ap (λ o. android_admin o (some stored)) (create_account_lem form sent)
        ∙ admin_by_text form.admin_code form.display_name stored,
    refl,
    ap (λ o. android_admin o none) (create_account_lem form sent)
        ∙ none-store_account (code_of form.admin_code) form.display_name,
    ap some (admin_by_input (read_integer form.admin_code)),
  )

module _ (f : Doubles) (fmt : Format) (db : Database f.Double) where
  open f use {Double, of_tenths}
  open db use {State}

  view-new_node :
      (who : Text) (s : State)
      → view db s ≡ no_node
      → view db (write_all db (new_node f who) s) ≡ node_of f who empty
  view-new_node who s v =
      view-write_all db (new_node f who) s
      ∙ ap (λ w. apply_all (new_node f who) w) v
      ∙ new-node_of f fmt db who

  -- For a user without a node and a form that is sent, with an admin code that is empty or an
  -- integer, both apps leave the same node.
  pub create_account-sign_up :
      (form : Form) (code : Integer) (s : State)
      → IsSent form
      → code_of form.admin_code ≡ some code
      → view db s ≡ no_node
      → view db (write_all db (writes_of (create_account f form true)) s)
        ≡ view db (write_all db (sign_up f true form.admin_code form.display_name).hours s)
  create_account-sign_up form code s sent c v =
      ap (λ o. view db (write_all db (writes_of o) s))
        (create_account_lem f form sent ∙ ap (λ o. store_account f o form.display_name) c)
      ∙ view-new_node form.display_name s v
      ∙ sym (view-sign_up f fmt db form.admin_code form.display_name s)

  -- After a sign-up on Android of a user without a node, with a form that is sent and an admin code
  -- that is empty or an integer, any rounds of recording come to their end with no crash, where
  -- each submission's transactions run before the next check-in, and the node stands for the ledger with the submitted sessions of at least 30 minutes, in order, each
  -- with its own times and the hours printed for it. Each counts at least half an hour, and the
  -- tenths of an hour added up are off from the sum of the durations by at most a twentieth of an
  -- hour for each session.
  pub play_all-create_account :
      (form : Form) (code : Integer) (s : State) (now : Clock) (rs : List Round)
      → IsSent form
      → code_of form.admin_code ≡ some code
      → view db s ≡ no_node
      → IsSettled f fmt db form.display_name empty (recorded_all fmt.tenths rs empty) (
          play_all f fmt db rs
            (new_fragment now)
            (write_all db (writes_of (create_account f form true)) s))
        × IsCounted (recorded_all fmt.tenths rs empty).entries
  play_all-create_account form code s now rs sent c v =
      let l : Ledger = recorded_all fmt.tenths rs empty in
      let t : IsSettled f fmt db form.display_name empty l (
          play_all f fmt db rs (new_fragment now)
            (write_all db (writes_of (create_account f form true)) s)) =
        play_all-IsSettled f fmt db form.display_name rs empty (new_fragment now)
          (write_all db (writes_of (create_account f form true)) s) (refl, refl, refl)
          (create_account-sign_up form code s sent c v
            ∙ view-sign_up f fmt db form.admin_code form.display_name s) in
      (t, Reach-IsCounted admits fmt l admits-long t.4)

  -- If the admin code is neither empty nor an integer, the user is made but not the node, and every
  -- later submission is lost: nothing can be read of the node after it.
  pub submit-create_account :
      (form : Form) (s : State) (diff : ℕ) (session : StudySession) (gs : List (Option ℕ))
      → IsSent form
      → code_of form.admin_code ≡ none
      → view db s ≡ no_node
      → (create_account f form true ≡ crashed)
        × (view db (
              submit f fmt db diff session gs
                (write_all db (writes_of (create_account f form true)) s))
            ≡ no_node)
  submit-create_account form s diff session gs sent c v =
      let crash : create_account f form true ≡ crashed =
        create_account_lem f form sent ∙ ap (λ o. store_account f o form.display_name) c in
      let lost : view db (submit f fmt db diff session gs s) ≡ no_node =
        submit-none f fmt db diff session gs s (ap (λ w. w.total) v) (ap (λ w. w.count) v) ∙ v in
      (
        crash,
        ap (λ o. view db (submit f fmt db diff session gs (write_all db (writes_of o) s))) crash
            ∙ lost,
      )
