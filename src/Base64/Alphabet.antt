-- ===== src/Base64/Alphabet.antt =====
-- The alphabet of fbase64.c: `strchr` undoes the table lookup.
use study_hours.Common.{
  all_below, all_below→, ℕ, ◌<◌, ◌≡◌, refl, ap, Bool, true, false, not, ◌&&◌, Option, none, some,
  ◌==◌, arith, ==_iff,
}
use study_hours.Base64.{base64_char, base64_index, isspace, pad64}

abbrev is_some : ℕ → Option ℕ → Bool
is_some i none = false
is_some i (some j) = j == i

is_some→some : (i : ℕ) (o : Option ℕ) → is_some i o ≡ true → o ≡ some i
is_some→some i none h = ground arith
is_some→some i (some j) h = ap some ((==_iff j i).0 h)

-- A digit's character is found at the digit.
unfoldable is_inverse : ℕ → Bool
unfolding base64_char base64_index
is_inverse i = is_some i (base64_index (base64_char i))

-- It is no zero, no space and no pad character.
unfoldable is_plain : ℕ → Bool
unfolding base64_char isspace
is_plain i =
    not (base64_char i == 0) && (not (isspace (base64_char i)) && not (base64_char i == pad64))

all_inverse : all_below is_inverse 64 ≡ true
unfolding all_below is_inverse
all_inverse = refl

all_plain : all_below is_plain 64 ≡ true
unfolding all_below is_plain
all_plain = refl

pub base64_index-base64_char : (i : ℕ) → i < 64 → base64_index (base64_char i) ≡ some i
unfolding is_inverse
base64_index-base64_char i h =
    is_some→some i (base64_index (base64_char i)) (all_below→ is_inverse 64 i all_inverse h)

not-true : (a : Bool) → not a ≡ true → a ≡ false
not-true a h = ground arith

three :
    (a b c : Bool) → (not a && (not b && not c)) ≡ true → (a ≡ false) × (b ≡ false) × (c ≡ false)
three true b c h = ground arith
three false true c h = ground arith
three false false true h = ground arith
three false false false h = (refl, refl, refl)

pub base64_char_plain :
    (i : ℕ)
    → i < 64
    → ((base64_char i == 0) ≡ false)
      × (isspace (base64_char i) ≡ false)
      × ((base64_char i == pad64) ≡ false)
unfolding is_plain
base64_char_plain i h =
    three (base64_char i == 0) (isspace (base64_char i)) (base64_char i == pad64)
      (all_below→ is_plain 64 i all_plain h)
