-- ===== src/App/Dict.antt =====
-- Dictionaries by integer keys, as lists in the order of the keys: the Swift dictionary of
-- ViewController.swift, and the HashMap of GalleryFragment.java with the TreeSet of its keys.
use study_hours.Common.{
  ℕ, suc, ◌≤◌, ◌<◌, ◌≡◌, refl, sym, Option, none, some, List, [], ◌∷◌, arith, ltb, ◌==◌,
  if◌then◌else◌,
}

module _ {A : Type 0} where
  abbrev pub lookup : List (ℕ × A) → ℕ → Option A
  lookup [] key = none
  lookup ((k, v) ∷ d) key = if k == key then some v else lookup d key

  abbrev pub insert : ℕ → A → List (ℕ × A) → List (ℕ × A)
  insert key w [] = (key, w) ∷ []
  insert key w ((k, v) ∷ d) =
      if k == key
      then (key, w) ∷ d
      else if ltb key k
      then (key, w) ∷ (k, v) ∷ d
      else (k, v) ∷ insert key w d

  abbrev pub values : List (ℕ × A) → List A
  values [] = []
  values ((k, v) ∷ d) = v ∷ values d

  -- The keys rise from `b` on.
  abbrev pub IsAbove : ℕ → List (ℕ × A) → Type 0
  IsAbove b [] = Unit
  IsAbove b ((k, v) ∷ d) = (b ≤ k) × IsAbove (suc k) d

  pub lookup-IsAbove : (b key : ℕ) (d : List (ℕ × A)) → IsAbove b d → key < b → lookup d key ≡ none
  lookup-IsAbove b key [] h p = refl
  lookup-IsAbove b key ((k, v) ∷ d) h p = ground (arith, h, lookup-IsAbove (suc k) key d h.1)

  pub lookup-insert :
      (key : ℕ) (w : A) (d : List (ℕ × A)) (j : ℕ)
      → lookup (insert key w d) j ≡ (if key == j then some w else lookup d j)
  lookup-insert key w [] j = refl
  lookup-insert key w ((k, v) ∷ d) j = ground (arith, lookup-insert key w d j)

  pub insert-IsAbove :
      (b key : ℕ) (w : A) (d : List (ℕ × A)) → IsAbove b d → b ≤ key → IsAbove b (insert key w d)
  insert-IsAbove b key w [] h p = (p, tt)
  insert-IsAbove b key w ((k, v) ∷ d) h p = ground (arith, h, insert-IsAbove (suc k) key w d h.1)

  keys_agree :
      (k j : ℕ) (v w : A) (d e : List (ℕ × A))
      → IsAbove (suc k) d
      → IsAbove (suc j) e
      → lookup ((k, v) ∷ d) k ≡ lookup ((j, w) ∷ e) k
      → lookup ((k, v) ∷ d) j ≡ lookup ((j, w) ∷ e) j
      → (k ≡ j) × (v ≡ w)
  keys_agree k j v w d e hd he p q =
      ground (arith, p, q, lookup-IsAbove (suc k) j d hd, lookup-IsAbove (suc j) k e he)

  tails_agree :
      (k : ℕ) (v w : A) (d e : List (ℕ × A)) (m : ℕ)
      → IsAbove (suc k) d
      → IsAbove (suc k) e
      → lookup ((k, v) ∷ d) m ≡ lookup ((k, w) ∷ e) m
      → lookup d m ≡ lookup e m
  tails_agree k v w d e m hd he p =
      ground (arith, p, lookup-IsAbove (suc k) m d hd, lookup-IsAbove (suc k) m e he)

  -- Two dictionaries with the same values are the same list.
  pub lookup_ext :
      (b c : ℕ) (d e : List (ℕ × A))
      → IsAbove b d
      → IsAbove c e
      → ((key : ℕ) → lookup d key ≡ lookup e key)
      → d ≡ e
  lookup_ext b c [] [] hd he h = refl
  lookup_ext b c [] ((j, w) ∷ e) hd he h = ground (arith, h j)
  lookup_ext b c ((k, v) ∷ d) [] hd he h = ground (arith, h k)
  lookup_ext b c ((k, v) ∷ d) ((j, w) ∷ e) hd he h =
      let agree : (k ≡ j) × (v ≡ w) = keys_agree k j v w d e hd.1 he.1 (h k) (h j) in
      let above : IsAbove (suc k) e = rw agree.0 he.1 in
      let rest : (m : ℕ) → lookup d m ≡ lookup e m =
        λ m. tails_agree k v w d e m hd.1 above (rw (sym agree.0) at (h m)) in
      λ i. (agree.0 i, agree.1 i) ∷ lookup_ext (suc k) (suc k) d e hd.1 above rest i
