-- ===== src/App/Text.antt =====
-- Texts as the apps compare and read them: the UTF-16 units of a Java or Swift string, and the
-- reading of an integer of 64 bits, as Long.valueOf of Java and Int(_:) of Swift read one in an
-- ASCII text. Java takes the digits of other scripts, too.
use study_hours.Common.{
  ℕ, ◌+◌, ◌-◌, ◌*◌, ◌^◌, Bool, true, false, ◌&&◌, Option, none, some, List, [], ◌∷◌, leb, ◌==◌,
  if◌then◌else◌,
}

abbrev pub Text : Type 0
Text = List ℕ

pub data Integer : Type 0 where
  pos : ℕ → Integer
  negsuc : ℕ → Integer

abbrev pub same : Integer → Integer → Bool
same (pos m) (pos n) = m == n
same (pos m) (negsuc n) = false
same (negsuc m) (pos n) = false
same (negsuc m) (negsuc n) = m == n

abbrev pub is_empty : Text → Bool
is_empty [] = true
is_empty (c ∷ cs) = false

-- The digits 0 to 9, each read into the value of those before.
unfoldable pub read_digits : ℕ → Text → Option ℕ
read_digits n [] = some n
read_digits n (c ∷ cs) = elim (leb 48 c && leb c 57) [
  | true ↦ read_digits (10 * n + (c - 48)) cs
  | false ↦ none
]

unfoldable pub magnitude : Text → Option ℕ
unfolding read_digits
magnitude [] = none
magnitude (c ∷ cs) = read_digits 0 (c ∷ cs)

unfoldable pub positive : Option ℕ → Option Integer
positive none = none
positive (some n) = if leb (2 ^ 63) n then none else some (pos n)

unfoldable pub negative : Option ℕ → Option Integer
negative none = none
negative (some n) =
    if leb (2 ^ 63 + 1) n then none else some (if n == 0 then pos 0 else negsuc (n - 1))

-- An optional sign and one digit at least; a value out of range is refused.
unfoldable pub read_integer : Text → Option Integer
unfolding positive negative magnitude
read_integer [] = none
read_integer (c ∷ cs) = elim (c == 43) [
  | true ↦ positive (magnitude cs)
  | false ↦ if c == 45 then negative (magnitude cs) else positive (magnitude (c ∷ cs))
]
