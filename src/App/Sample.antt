-- ===== src/App/Sample.antt =====
-- The session children of a node kept in a list, for the database of the tests; doubles
-- as whole tenths, and a formatting to the nearest tenth.
use study_hours.App.Database.{Doubles, Format}
use study_hours.App.Node.{Child, IsNode, put, total_of, count_of, name_of, in_of, out_of, session}
use study_hours.Common.{
  ℕ, ◌+◌, ◌*◌, ◌/◌, ◌≤◌, ◌≡◌, refl, Option, none, some, List, [], ◌∷◌, ◌==◌, Bool-cases, inl, inr,
  if◌then◌else◌, arith,
}

abbrev pub tenth_doubles : Doubles
tenth_doubles = record { Double = ℕ; add = ◌+◌; of_tenths = λ t. t }

abbrev nearest : ℕ → ℕ
nearest d = (d + 180000) / 360000

pub nearest_upper : (d : ℕ) → 360000 * nearest d ≤ d + 180000
nearest_upper d = omega arith

pub nearest_lower : (d : ℕ) → d ≤ 360000 * nearest d + 180000
nearest_lower d = omega arith

abbrev pub nearest_tenths : Format
nearest_tenths = record {
  tenths = nearest;
  tenths_upper = nearest_upper;
  tenths_lower = nearest_lower;
}

pub record Slot : Type 0 where
  pub key : ℕ
  pub in_time : Option ℕ
  pub out_time : Option ℕ

abbrev pub sessions_of : List Slot → List (Child ℕ)
sessions_of [] = []
sessions_of (s ∷ ss) = session s.key s.in_time s.out_time ∷ sessions_of ss

pub total-sessions_of : (ss : List Slot) → total_of (sessions_of ss) ≡ none
total-sessions_of [] = refl
total-sessions_of (s ∷ ss) = total-sessions_of ss

pub count-sessions_of : (ss : List Slot) → count_of (sessions_of ss) ≡ none
count-sessions_of [] = refl
count-sessions_of (s ∷ ss) = count-sessions_of ss

pub name-sessions_of : (ss : List Slot) → name_of (sessions_of ss) ≡ none
name-sessions_of [] = refl
name-sessions_of (s ∷ ss) = name-sessions_of ss

abbrev pub without : ℕ → List Slot → List Slot
without k [] = []
without k (s ∷ ss) = if s.key == k then without k ss else s ∷ without k ss

in_of-without :
    (k j : ℕ) (ss : List Slot)
    → in_of (sessions_of (without k ss)) j ≡ put k none (in_of (sessions_of ss)) j
in_of-without k j [] = ground arith
in_of-without k j (s ∷ ss) = ground (arith, in_of-without k j ss)

out_of-without :
    (k j : ℕ) (ss : List Slot)
    → out_of (sessions_of (without k ss)) j ≡ put k none (out_of (sessions_of ss)) j
out_of-without k j [] = ground arith
out_of-without k j (s ∷ ss) = ground (arith, out_of-without k j ss)

pub without-IsNode :
    (k : ℕ) (ss : List Slot) → IsNode (sessions_of ss) → IsNode (sessions_of (without k ss))
without-IsNode k [] h = tt
without-IsNode k (s ∷ ss) h = elim (Bool-cases (s.key == k)) [
  | inl e ↦ rw e (without-IsNode k ss h.3)
  | inr e ↦ rw e (
    ground (arith, in_of-without k s.key ss, h.0),
    ground (arith, out_of-without k s.key ss, h.1),
    h.2,
    without-IsNode k ss h.3,
  )
]

-- The slots after another value at a key; an empty child goes away.
abbrev pub with_slot : ℕ → Option ℕ → Option ℕ → List Slot → List Slot
with_slot k none none ss = without k ss
with_slot k (some i) o ss = record { key = k; in_time = some i; out_time = o } ∷ without k ss
with_slot k none (some o) ss = record { key = k; in_time = none; out_time = some o } ∷ without k ss

pub in_of-with_slot :
    (k : ℕ) (i o : Option ℕ) (ss : List Slot) (j : ℕ)
    → in_of (sessions_of (with_slot k i o ss)) j ≡ put k i (in_of (sessions_of ss)) j
in_of-with_slot k none none ss j = in_of-without k j ss
in_of-with_slot k (some i) o ss j = ground (arith, in_of-without k j ss)
in_of-with_slot k none (some o) ss j = ground (arith, in_of-without k j ss)

pub out_of-with_slot :
    (k : ℕ) (i o : Option ℕ) (ss : List Slot) (j : ℕ)
    → out_of (sessions_of (with_slot k i o ss)) j ≡ put k o (out_of (sessions_of ss)) j
out_of-with_slot k none none ss j = out_of-without k j ss
out_of-with_slot k (some i) o ss j = ground (arith, out_of-without k j ss)
out_of-with_slot k none (some o) ss j = ground (arith, out_of-without k j ss)

pub with_slot-IsNode :
    (k : ℕ) (i o : Option ℕ) (ss : List Slot)
    → IsNode (sessions_of ss)
    → IsNode (sessions_of (with_slot k i o ss))
with_slot-IsNode k none none ss h = without-IsNode k ss h
with_slot-IsNode k (some i) o ss h = (
  ground (arith, in_of-without k k ss),
  ground (arith, out_of-without k k ss),
  refl,
  without-IsNode k ss h,
)
with_slot-IsNode k none (some o) ss h = (
  ground (arith, in_of-without k k ss),
  ground (arith, out_of-without k k ss),
  refl,
  without-IsNode k ss h,
)
