-- ===== src/App/Android/Opened.antt =====
-- SistersHoursFragment.java: which user a row opens.
use study_hours.App.Android.Sisters.{User, equals, get, put_text, label, read_users, on_item_click}
use study_hours.App.Text.{Text}
use study_hours.Common.{
  ◌≡◌, refl, sym, ap, ◌∙◌, true, false, Option, none, some, List, [], ◌∷◌, All, ==_iff, Bool-cases,
  inl, inr, arith, if◌then◌else◌,
}

equals-true : (s t : Text) → equals s t ≡ true → s ≡ t
equals-true [] [] h = refl
equals-true [] (d ∷ ds) h = cc
equals-true (c ∷ cs) [] h = cc
equals-true (c ∷ cs) (d ∷ ds) h = ground (arith, h, equals-true cs ds, ==_iff c d)

equals_self : (s : Text) → equals s s ≡ true
equals_self [] = refl
equals_self (c ∷ cs) = ground (arith, equals_self cs)

get-put_text :
    (key v : Text) (m : List (Text × Text)) (j : Text)
    → get (put_text key v m) j ≡ (if equals key j then some v else get m j)
get-put_text key v [] j = refl
get-put_text key v ((k, w) ∷ m) j = elim (Bool-cases (equals k key)) [
  | inl e ↦ rw (e, equals-true k key e) (ground arith)
  | inr e ↦ rw e (apart (λ q. e) (get-put_text key v m j))
]
  where
    apart :
        (k ≡ key → equals k key ≡ false)
        → get (put_text key v m) j ≡ (if equals key j then some v else get m j)
        → (if equals k j then some w else get (put_text key v m) j)
          ≡ (if equals key j then some v else if equals k j then some w else get m j)
    apart new ih = rw ih (elim (Bool-cases (equals k j)) [
      | inl p ↦ elim (Bool-cases (equals key j)) [
        | inl q ↦
            let same : k ≡ key = equals-true k j p ∙ sym (equals-true key j q) in
            cc (sym (new same) ∙ (ap (λ t. equals t key) same ∙ equals_self key))
        | inr q ↦ rw (p, q) refl
      ]
      | inr p ↦ rw p refl
    ])

module _ {D : Type 0} (print : D → Text) where
  -- The label of a user whose total is there.
  abbrev pub label_of : User D → D → Text
  label_of u t = label print u.node.name t

  abbrev pub HasTotal : User D → Type 0
  HasTotal u = (t : D) × (u.node.total ≡ some t)

  -- The last of the users with this label.
  abbrev pub last_with : Text → (us : List (User D)) → All HasTotal us → Option Text
  last_with row [] h = none
  last_with row (u ∷ us) h = elim (last_with row us h.1) [
    | none ↦ if equals (label_of u h.0.0) row then some u.uid else none
    | some v ↦ some v
  ]

  abbrev or_else : Option Text → Option Text → Option Text
  or_else none o = o
  or_else (some v) o = some v

  read_users_lem :
      (us : List (User D)) (h : All HasTotal us) (m : List (Text × Text))
      → (n : List (Text × Text)) × (read_users print us m ≡ some n)
        × ((row : Text) → get n row ≡ or_else (last_with row us h) (get m row))
  read_users_lem [] h m = (m, refl, λ row. refl)
  read_users_lem (u ∷ us) h m =
      let k : Text = label_of u h.0.0 in
      let r : (n : List (Text × Text)) × (read_users print us (put_text k u.uid m) ≡ some n)
          × ((row : Text)
              → get n row ≡ or_else (last_with row us h.1) (get (put_text k u.uid m) row)) =
        read_users_lem us h.1 (put_text k u.uid m) in
      (r.0, rw (h.0.1, read_users) r.1, λ row. ground (arith, r.2 row, get-put_text k u.uid m row))

  -- If every user has a total, the list is shown, and a click on a row opens the last of the users
  -- whose name and total make its label: of users with the same label, no other can be opened.
  pub on_item_click-read_users :
      (us : List (User D)) (h : All HasTotal us)
      → (m : List (Text × Text)) × (read_users print us [] ≡ some m)
        × ((row : Text) → on_item_click row m ≡ last_with row us h)
  on_item_click-read_users us h =
      let r : (n : List (Text × Text)) × (read_users print us [] ≡ some n)
          × ((row : Text) → get n row ≡ or_else (last_with row us h) none) =
        read_users_lem us h [] in
      (r.0, r.1, λ row. ground (arith, r.2 row))
