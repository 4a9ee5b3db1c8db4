-- ===== src/Nanopb/Search.antt =====
-- pb_common.c: what `pb_field_iter_find` finds, and that the fuel of its loop is enough.
use study_hours.Common.{
  ℕ, zero, suc, ◌+◌, ◌-◌, ◌≤◌, ◌<◌, ◌≡◌, refl, ◌∙◌, ap, ◌==◌, Bool, true, false, ◌||◌, Bool-cases,
  ◌⊎◌, inl, inr, Option, some, List, [], ◌∷◌, length, All, arith,
}
use study_hours.Nanopb.Field.{
  Field, FieldIter, last_field, field_at, here, begin_at, pb_field_iter_next, search_from,
  pb_field_iter_find, has_tag, in_same_union,
}

-- No field of an array is the terminator.
abbrev pub IsTagged : Field → Type 0
IsTagged field = (field.tag == 0) ≡ false

field_at-IsTagged :
    (fields : List Field) (i : ℕ)
    → All IsTagged fields
    → i < length fields
    → IsTagged (field_at fields i)
field_at-IsTagged [] i h p = absurd (omega arith)
field_at-IsTagged (f ∷ fields) zero h p = h.0
field_at-IsTagged (f ∷ fields) (suc i) h p = field_at-IsTagged fields i h.1 (omega arith)

field_at-end : (fields : List Field) (i : ℕ) → length fields ≤ i → field_at fields i ≡ last_field
field_at-end [] i p = refl
field_at-end (f ∷ fields) zero p = absurd (omega arith)
field_at-end (f ∷ fields) (suc i) p = field_at-end fields i (omega arith)

-- Where the iterator moves to.
pub pb_field_iter_next-inside :
    (iter : FieldIter)
    → All IsTagged iter.start
    → iter.pos + 1 < length iter.start
    → ((pb_field_iter_next iter).1 ≡ true)
      × ((pb_field_iter_next iter).0.start ≡ iter.start)
      × ((pb_field_iter_next iter).0.pos ≡ iter.pos + 1)
unfolding pb_field_iter_next
pb_field_iter_next-inside iter h p =
    let here_tag = field_at-IsTagged iter.start iter.pos h (omega arith) in
    let next_tag = field_at-IsTagged iter.start (iter.pos + 1) h p in
    rw (here_tag, next_tag)
      (elim (Bool-cases (in_same_union (here iter) (field_at iter.start (iter.pos + 1)))) [
        | inl e ↦ rw e (refl, refl, refl)
        | inr e ↦ rw e (refl, refl, refl)
      ])

pub pb_field_iter_next-end :
    (iter : FieldIter)
    → All IsTagged iter.start
    → iter.pos + 1 ≡ length iter.start
    → pb_field_iter_next iter ≡ (begin_at iter.start iter.dest_struct, false)
unfolding pb_field_iter_next
pb_field_iter_next-end iter h p =
    let here_tag = field_at-IsTagged iter.start iter.pos h (omega arith) in
    rw (here_tag, field_at-end iter.start (iter.pos + 1) (omega arith))

abbrev pub any : (Field → Bool) → List Field → Bool
any test [] = false
any test (f ∷ fields) = test f || any test fields

or_true : (a : Bool) → (a || true) ≡ true
or_true true = refl
or_true false = refl

any-true :
    (test : Field → Bool) (fields : List Field) (i : ℕ)
    → i < length fields
    → test (field_at fields i) ≡ true
    → any test fields ≡ true
any-true test [] i p e = absurd (omega arith)
any-true test (f ∷ fields) zero p e = rw e refl
any-true test (f ∷ fields) (suc i) p e =
    rw (any-true test fields i (omega arith) e) (or_true (test f))

any-false :
    (test : Field → Bool) (fields : List Field)
    → ((i : ℕ) → i < length fields → test (field_at fields i) ≡ false)
    → any test fields ≡ false
any-false test [] h = refl
any-false test (f ∷ fields) h =
    rw (h 0 (omega arith), any-false test fields (λ i p. h (suc i) (omega arith))) refl

module _ (fields : List Field) (tagged : All IsTagged fields) (wanted : Field → Bool)
    (start : ℕ) where
  abbrev Found : Option (FieldIter × Bool) → Type 0
  Found r =
      (iter : FieldIter) × (r ≡ some (iter, true))
      × (iter.start ≡ fields)
      × (iter.pos < length fields)
      × (wanted (here iter) ≡ true)

  abbrev Missing : Option (FieldIter × Bool) → Type 0
  Missing r =
      (iter : FieldIter) × (r ≡ some (iter, false)) × (iter.start ≡ fields) × (iter.pos ≡ start)

  -- No field from one index up to another is wanted.
  abbrev NoneFrom : ℕ → ℕ → Type 0
  NoneFrom low high = (q : ℕ) → low ≤ q → q < high → wanted (field_at fields q) ≡ false

  none_and :
      (p high : ℕ) → wanted (field_at fields p) ≡ false → NoneFrom (p + 1) high → NoneFrom p high
  none_and p high first others q low below = elim (split q p low) [
    | inl e ↦ rw e first
    | inr above ↦ others q above below
  ]
    where
      split : (q p : ℕ) → p ≤ q → (q ≡ p) ⊎ (p + 1 ≤ q)
      split q p low = ground arith

  none_here : (p high : ℕ) → p + 1 ≡ high → wanted (field_at fields p) ≡ false → NoneFrom p high
  none_here p high e first = none_and p high first (λ q low below. absurd (omega arith))

  Found-here :
      (fuel : ℕ) (iter : FieldIter)
      → iter.start ≡ fields
      → iter.pos < length fields
      → wanted (here iter) ≡ true
      → Found (search_from (suc fuel) wanted start iter)
  unfolding search_from
  Found-here fuel iter same p e = (iter, rw e refl, same, p, e)

  -- The rest of the loop, from before the start on.
  search_low :
      (fuel : ℕ) (iter : FieldIter)
      → iter.start ≡ fields
      → iter.pos < start
      → start < length fields
      → start - iter.pos ≤ fuel
      → Found (search_from fuel wanted start iter)
        ⊎ (Missing (search_from fuel wanted start iter) × NoneFrom iter.pos start)
  unfolding search_from
  search_low zero iter same p q enough = absurd (omega arith)
  search_low (suc fuel) iter same p q enough =
      let all : All IsTagged iter.start = rw same tagged in
      let size : length iter.start ≡ length fields = ap length same in
      let (_, same', pos') = pb_field_iter_next-inside iter all (omega arith) in
      elim (Bool-cases (wanted (here iter))) [
        | inl e ↦ inl (Found-here fuel iter same (omega arith) e)
        | inr e ↦ elim (Bool-cases ((pb_field_iter_next iter).0.pos == start)) [
          | inl at_start ↦ inr (
            ((pb_field_iter_next iter).0, rw (e, at_start) refl, same' ∙ same, ground arith),
            none_here iter.pos start (ground arith) (rw same at e),
          )
          | inr before ↦
              rw (e, before)
                (elim (search_low fuel (pb_field_iter_next iter).0 (same' ∙ same) (ground arith) q
                  (omega arith)) [
                    | inl f ↦ inl f
                    | inr (m, others) ↦
                        inr (m, none_and iter.pos start (rw same at e) (rw pos' at others))
                  ])
        ]
      ]

  -- The rest of the loop, from the start on to the end of the array and around.
  abbrev Outcome : ℕ → ℕ → FieldIter → Type 0
  Outcome fuel pos iter =
      Found (search_from fuel wanted start iter)
      ⊎ (Missing (search_from fuel wanted start iter)
          × NoneFrom pos (length fields)
          × NoneFrom 0 start)

  abbrev HighOutcome : ℕ → Type 0
  HighOutcome fuel =
      (iter : FieldIter)
      → iter.start ≡ fields
      → start ≤ iter.pos
      → iter.pos < length fields
      → length fields - iter.pos + start ≤ fuel
      → Outcome fuel iter.pos iter

  search_high : (fuel : ℕ) → HighOutcome fuel
  unfolding search_from
  search_high zero iter same p q enough = absurd (omega arith)
  search_high (suc fuel) iter same p q enough = elim (Bool-cases (wanted (here iter))) [
    | inl e ↦ inl (Found-here fuel iter same q e)
    | inr e ↦ elim (last) [ inl end ↦ at_end e end | inr more ↦ going_on (search_high fuel) e more ]
  ]
    where
      all : All IsTagged iter.start
      all = rw same tagged

      size : length iter.start ≡ length fields
      size = ap length same

      last : (iter.pos + 1 ≡ length fields) ⊎ (iter.pos + 1 < length fields)
      last = ground arith

      going_on :
          HighOutcome fuel
          → wanted (here iter) ≡ false
          → iter.pos + 1 < length fields
          → Outcome (suc fuel) iter.pos iter
      going_on further e more =
          let (_, same', pos') = pb_field_iter_next-inside iter all (omega (arith, size)) in
          let before : ((pb_field_iter_next iter).0.pos == start) ≡ false = ground arith in
          rw (e, before)
            (elim (further (pb_field_iter_next iter).0 (same' ∙ same) (omega arith) (omega arith)
              (omega arith)) [
                | inl f ↦ inl f
                | inr (m, high, low) ↦
                    inr (m, none_and iter.pos (length fields) (rw same at e) (rw pos' at high), low)
              ])

      at_end :
          wanted (here iter) ≡ false
          → iter.pos + 1 ≡ length fields
          → Outcome (suc fuel) iter.pos iter
      at_end e end =
          let next = pb_field_iter_next-end iter all (omega (arith, size)) in
          let again = begin_at iter.start iter.dest_struct in
          let others = none_here iter.pos (length fields) end (rw same at e) in
          elim (Bool-cases (0 == start)) [
            | inl first ↦ inr (
              (again, rw (e, next, first) refl, same, ground arith),
              others,
              λ j low below. absurd (ground arith),
            )
            | inr later ↦
                rw (e, next, later)
                  (elim (search_low fuel again same (ground arith) (omega arith) (omega arith)) [
                    | inl f ↦ inl f
                    | inr (m, low) ↦ inr (m, others, low)
                  ])
          ]

-- On a descriptor array without a terminator in it and an iterator that stands inside it,
-- `pb_field_iter_find` ends, on an iterator over the same array. It returns true exactly where a
-- field with the tag that is no extension is in the array, and the iterator then stands on such a
-- field. Otherwise it stands where it stood before.
pub pb_field_iter_find_lem :
    (iter : FieldIter) (tag : ℕ)
    → All IsTagged iter.start
    → iter.pos < length iter.start
    → (found : FieldIter) × (pb_field_iter_find iter tag
        ≡ some (found, any (has_tag tag) iter.start))
      × (found.start ≡ iter.start)
      × (((any (has_tag tag) iter.start ≡ true) × (has_tag tag (here found) ≡ true))
          ⊎ ((any (has_tag tag) iter.start ≡ false) × (found.pos ≡ iter.pos)))
unfolding pb_field_iter_find
pb_field_iter_find_lem iter tag tagged p =
    elim (search_high iter.start tagged (has_tag tag) iter.pos (length iter.start + 1) iter refl
      (omega arith) p (omega arith)) [
        | inl (found, e, same, inside, is_wanted) ↦
            let yes = any-true (has_tag tag) iter.start found.pos inside (rw same at is_wanted) in
            (found, rw yes e, same, inl (yes, is_wanted))
        | inr ((found, e, same, back), high, low) ↦
            let no = any-false (has_tag tag) iter.start (λ i below. elim (split i) [
              | inl before ↦ low i (omega arith) before
              | inr behind ↦ high i behind below
            ]) in
            (found, rw no e, same, inr (no, back))
      ]
  where
    split : (i : ℕ) → (i < iter.pos) ⊎ (iter.pos ≤ i)
    split i = ground arith
