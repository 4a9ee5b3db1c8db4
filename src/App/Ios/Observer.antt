-- ===== src/App/Ios/Observer.antt =====
-- The observer of RecordViewController.swift against what its node shows.
use study_hours.App.Node.{
  Child, IsNode, total_hours, num_sessions, sister_name, session, other, count_of, in_of, out_of,
  is_some,
}
use study_hours.App.Ios.Record.{
  Screen, last_count, in_or, find_running, look_for_running, observe_value, update_screen,
}
use study_hours.Common.{
  ℕ, ◌+◌, ◌≡◌, refl, ap, ◌∙◌, Bool, true, false, Option, none, some, List, [], ◌∷◌, ◌||◌, arith,
  ◌==◌, ==_iff, Bool-cases, inl, inr,
}

module _ {D : Type 0} where
  last_count-none : (n : Option ℕ) (cs : List (Child D)) → count_of cs ≡ none → last_count n cs ≡ n
  last_count-none n [] h = refl
  last_count-none n (total_hours d ∷ cs) h = last_count-none n cs h
  last_count-none n (num_sessions m ∷ cs) h = cc
  last_count-none n (sister_name s ∷ cs) h = last_count-none n cs h
  last_count-none n (session k i o ∷ cs) h = last_count-none n cs h
  last_count-none n (other i o ∷ cs) h = last_count-none n cs h

  last_count-count_of : (cs : List (Child D)) → IsNode cs → last_count none cs ≡ count_of cs
  last_count-count_of [] h = refl
  last_count-count_of (total_hours d ∷ cs) h = last_count-count_of cs h.1
  last_count-count_of (num_sessions m ∷ cs) h = last_count-none (some m) cs h.0
  last_count-count_of (sister_name s ∷ cs) h = last_count-count_of cs h.1
  last_count-count_of (session k i o ∷ cs) h = last_count-count_of cs h.3
  last_count-count_of (other i o ∷ cs) h = last_count-count_of cs h

  -- Whether a child has the key.
  abbrev pub has_session : List (Child D) → ℕ → Bool
  has_session cs k = is_some (in_of cs k) || is_some (out_of cs k)

  find_running_lem :
      (n : ℕ) (r : Bool) (i : ℕ) (cs : List (Child D))
      → IsNode cs
      → find_running n r i cs ≡ (r || has_session cs (n + 1), in_or (in_of cs (n + 1)) i)
  find_running_lem n true i [] h = refl
  find_running_lem n false i [] h = refl
  find_running_lem n r i (total_hours d ∷ cs) h = find_running_lem n r i cs h.1
  find_running_lem n r i (num_sessions m ∷ cs) h = find_running_lem n r i cs h.1
  find_running_lem n r i (sister_name s ∷ cs) h = find_running_lem n r i cs h.1
  find_running_lem n r i (other j o ∷ cs) h = find_running_lem n r i cs h
  find_running_lem n r i (session k j o ∷ cs) h = elim (Bool-cases (k == n + 1)) [
    | inl e ↦ rw e (found ((==_iff k (n + 1)).0 e) (find_running_lem n true (in_or j i) cs h.3))
    | inr e ↦ rw e (find_running_lem n r i cs h.3)
  ]
    where
      found :
          k ≡ n + 1
          → find_running n true (in_or j i) cs ≡ (true, in_or (in_of cs (n + 1)) (in_or j i))
          → find_running n true (in_or j i) cs ≡ (r || (is_some j || is_some o), in_or j i)
      found e ih = rw ih (ground (arith, h.0, h.1, h.2, e))

  look_for_running_lem :
      (cs : List (Child D)) (n : ℕ) (r : Bool)
      → IsNode cs
      → count_of cs ≡ some n
      → look_for_running (last_count none cs) r cs
        ≡ some (r || has_session cs (n + 1), in_or (in_of cs (n + 1)) 0)
  look_for_running_lem [] n r h c = cc
  look_for_running_lem (x ∷ cs) n r h c =
      ap (λ m. look_for_running m r (x ∷ cs)) (last_count-count_of (x ∷ cs) h ∙ c)
      ∙ ap (λ p. some p) (find_running_lem n r 0 (x ∷ cs) h)

  pub observe_value_lem :
      (cs : List (Child D)) (now n : ℕ) (s : Screen)
      → IsNode cs
      → count_of cs ≡ some n
      → observe_value cs now s
        ≡ some (
            update_screen
              (s.recording || has_session cs (n + 1))
              (in_or (in_of cs (n + 1)) 0)
              now
              (record s { recording = s.recording || has_session cs (n + 1) }))
  observe_value_lem cs now n s h c =
      let o : Option (Bool × ℕ) = look_for_running (last_count none cs) s.recording cs in
      let e : o ≡ some (s.recording || has_session cs (n + 1), in_or (in_of cs (n + 1)) 0) =
        look_for_running_lem cs n s.recording h c in
      rw (e, observe_value) refl
