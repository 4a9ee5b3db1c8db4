-- ===== src/Base64.antt =====
-- fbase64.c of the SocketRocket copy in iOS/StudyHours/Pods/FirebaseDatabase: the Base 64 encoder
-- and decoder. Characters and bytes are numbers.
pub mod Alphabet
pub mod Groups
pub mod Size
pub mod RoundTrip
pub mod Exact
mod Examples
use study_hours.Common.{
  ℕ, zero, suc, ◌+◌, ◌-◌, ◌*◌, ◌/◌, ◌%◌, ◌^◌, bit_or, u8, u32, low_bits, shr, ltb, leb, ◌==◌,
  if◌then◌else◌, Bool, true, false, not, ◌&&◌, ◌||◌, Option, none, some, List, [], ◌∷◌, ◌++◌,
  length, get_or, set,
}

-- The characters of `Base64[]`: A–Z, a–z, 0–9, `+` and `/`.
abbrev pub base64 : List ℕ
base64 =
    65 ∷ 66 ∷ 67 ∷ 68 ∷ 69 ∷ 70 ∷ 71 ∷ 72 ∷ 73 ∷ 74 ∷ 75 ∷ 76 ∷ 77 ∷ 78 ∷ 79 ∷ 80 ∷ 81 ∷ 82 ∷ 83
    ∷ 84 ∷ 85 ∷ 86 ∷ 87 ∷ 88 ∷ 89 ∷ 90 ∷ 97 ∷ 98 ∷ 99 ∷ 100 ∷ 101 ∷ 102 ∷ 103 ∷ 104 ∷ 105 ∷ 106
    ∷ 107 ∷ 108 ∷ 109 ∷ 110 ∷ 111 ∷ 112 ∷ 113 ∷ 114 ∷ 115 ∷ 116 ∷ 117 ∷ 118 ∷ 119 ∷ 120 ∷ 121 ∷ 122
    ∷ 48 ∷ 49 ∷ 50 ∷ 51 ∷ 52 ∷ 53 ∷ 54 ∷ 55 ∷ 56 ∷ 57 ∷ 43 ∷ 47 ∷ []

abbrev pub pad64 : ℕ
pad64 = 61

-- `Base64[digit]`
unfoldable pub base64_char : ℕ → ℕ
base64_char digit = get_or base64 digit 0

-- The four digits of three bytes.
abbrev pub digit0 : ℕ → ℕ
digit0 a = shr a 2

abbrev pub digit1 : ℕ → ℕ → ℕ
digit1 a b = low_bits a 2 * 2 ^ 4 + shr b 4

abbrev pub digit2 : ℕ → ℕ → ℕ
digit2 b c = low_bits b 4 * 2 ^ 2 + shr c 6

abbrev pub digit3 : ℕ → ℕ
digit3 c = low_bits c 6

-- The terminator is not counted. The `int` that is returned is given by its 32 bits.
abbrev pub terminate : ℕ → List ℕ → Option ℕ × List ℕ
terminate targsize target =
    if leb targsize (length target)
    then (none, target)
    else (some (u32 (length target)), target ++ (0 ∷ []))

abbrev pub padded : ℕ → List ℕ → List ℕ → Option ℕ × List ℕ
padded targsize target chars =
    if ltb targsize (length target + 4)
    then (none, target)
    else terminate targsize (target ++ chars)

-- `target` is what is written so far. The result is `none` for -1.
unfoldable pub ntop_from : List ℕ → ℕ → List ℕ → Option ℕ × List ℕ
unfolding base64_char
ntop_from (a ∷ b ∷ c ∷ src) targsize target =
    let chars =
      base64_char (digit0 a)
      ∷ base64_char (digit1 a b)
      ∷ base64_char (digit2 b c)
      ∷ base64_char (digit3 c)
      ∷ [] in
    let rest = ntop_from src targsize (target ++ chars) in
    if ltb targsize (length target + 4) then (none, target) else rest
ntop_from (a ∷ b ∷ []) targsize target =
    padded targsize target
      (base64_char (digit0 a) ∷ base64_char (digit1 a b) ∷ base64_char (digit2 b 0) ∷ pad64 ∷ [])
ntop_from (a ∷ []) targsize target =
    padded targsize target (base64_char (digit0 a) ∷ base64_char (digit1 a 0) ∷ pad64 ∷ pad64 ∷ [])
ntop_from [] targsize target = terminate targsize target

unfoldable pub f_b64_ntop : List ℕ → ℕ → Option ℕ × List ℕ
unfolding ntop_from
f_b64_ntop src targsize = ntop_from src targsize []

-- In the C locale.
unfoldable pub isspace : ℕ → Bool
isspace ch = (ch == 32) || (leb 9 ch && leb ch 13)

-- `strchr(Base64, ch) - Base64`
unfoldable pub index_from : List ℕ → ℕ → ℕ → Option ℕ
index_from [] i ch = none
index_from (c ∷ cs) i ch = let rest = index_from cs (suc i) ch in if c == ch then some i else rest

unfoldable pub base64_index : ℕ → Option ℕ
unfolding index_from
base64_index ch = index_from base64 0 ch

-- The locals of `f_b64_pton`, `tarindex` of 32 bits, with the array behind `target`, if it is not null.
pub record Pton : Type 0 where
  pub target : Option (List ℕ)
  pub tarindex : ℕ
  pub state : ℕ

-- `f_b64_pton` returned -1, or the loop ended at the end of the string, or behind a pad character.
pub data Scan : Type 0 where
  invalid : Pton → Scan
  at_end : Pton → Scan
  at_pad : Pton → List ℕ → Scan

-- What a digit does to the array: `none` if there is no room. At the start of a group it sets a
-- byte, within one it adds to a byte and may set the next one.
abbrev pub put_first : ℕ → ℕ → ℕ → List ℕ → Option (List ℕ)
put_first targsize i high target = if leb targsize i then none else some (set target i (u8 high))

abbrev pub or_at : ℕ → ℕ → List ℕ → List ℕ
or_at i low target = set target i (u8 (bit_or (get_or target i 0) low))

abbrev pub put_next : ℕ → ℕ → ℕ → ℕ → List ℕ → Option (List ℕ)
put_next targsize i low high target =
    let next = u32 (i + 1) in
    if leb targsize next then none else some (set (or_at i low target) next (u8 high))

abbrev pub put_last : ℕ → ℕ → ℕ → List ℕ → Option (List ℕ)
put_last targsize i low target = if leb targsize i then none else some (or_at i low target)

abbrev pub stored : Option (List ℕ) → Option (Option (List ℕ))
stored none = none
stored (some target) = some (some target)

-- A null `target` is skipped: `none` is -1.
abbrev pub on_target : Option (List ℕ) → (List ℕ → Option (List ℕ)) → Option (Option (List ℕ))
on_target none put = some none
on_target (some target) put = stored (put target)

abbrev pub moved : Option (Option (List ℕ)) → ℕ → ℕ → Option Pton
moved none i state = none
moved (some target) i state = some (record { target = target; tarindex = i; state = state })

-- The `switch (state)` of the loop.
unfoldable pub put_digit : ℕ → ℕ → Pton → Option Pton
put_digit targsize v p =
    let i = p.tarindex in
    if p.state == 0
    then moved (on_target p.target (put_first targsize i (v * 2 ^ 2))) i 1
    else if p.state == 1
    then moved (on_target p.target (put_next targsize i (shr v 4) (low_bits v 4 * 2 ^ 4)))
        (u32 (i + 1)) 2
    else if p.state == 2
    then moved (on_target p.target (put_next targsize i (shr v 2) (low_bits v 2 * 2 ^ 6)))
        (u32 (i + 1)) 3
    else if p.state == 3
    then moved (on_target p.target (put_last targsize i v)) (u32 (i + 1)) 0
    else some p

abbrev pub or_invalid : Pton → (Pton → Scan) → Option Pton → Scan
or_invalid p rest none = invalid p
or_invalid p rest (some new) = rest new

abbrev pub digit_or_invalid : ℕ → Pton → (Pton → Scan) → Option ℕ → Scan
digit_or_invalid targsize p rest none = invalid p
digit_or_invalid targsize p rest (some v) = or_invalid p rest (put_digit targsize v p)

-- The `while` loop. The string ends at a zero or with the list.
unfoldable pub scan : ℕ → List ℕ → Pton → Scan
unfolding put_digit isspace base64_index
scan targsize [] p = at_end p
scan targsize (ch ∷ src) p =
    let rest = scan targsize src in
    if ch == 0
    then at_end p
    else if isspace ch
    then rest p
    else if ch == pad64
    then at_pad p src
    else digit_or_invalid targsize p rest (base64_index ch)

-- The string from the next character on that is no space.
unfoldable pub skip_spaces : List ℕ → List ℕ
unfolding isspace
skip_spaces [] = []
skip_spaces (ch ∷ src) = let rest = skip_spaces src in if isspace ch then rest else ch ∷ src

-- Nothing but spaces before the end.
unfoldable pub only_spaces : List ℕ → Bool
unfolding isspace
only_spaces [] = true
only_spaces (ch ∷ src) = let rest = only_spaces src in if ch == 0 then true else isspace ch && rest

abbrev pub result : Option ℕ → Pton → Option ℕ × Option (List ℕ)
result n p = (n, p.target)

abbrev pub has_slop : Pton → Bool
has_slop p = elim p.target [ none ↦ false | some target ↦ not (get_or target p.tarindex 0 == 0) ]

-- The last part of the pad case: only spaces, and no bits beyond the last byte.
abbrev pub end_of_pad : Pton → List ℕ → Option ℕ × Option (List ℕ)
end_of_pad p src =
    if only_spaces src
    then (if has_slop p then result none p else result (some p.tarindex) p)
    else result none p

abbrev pub second_pad : Pton → List ℕ → Option ℕ × Option (List ℕ)
second_pad p [] = result none p
second_pad p (ch ∷ src) = if ch == pad64 then end_of_pad p src else result none p

unfoldable pub after_scan : Scan → Option ℕ × Option (List ℕ)
unfolding skip_spaces only_spaces
after_scan (invalid p) = result none p
after_scan (at_end p) = if p.state == 0 then result (some p.tarindex) p else result none p
after_scan (at_pad p src) =
    if p.state == 2
    then second_pad p (skip_spaces src)
    else if p.state == 3
    then end_of_pad p src
    else result none p

-- The returned `int`, by its 32 bits and `none` for -1, and the array as it is left.
unfoldable pub f_b64_pton : List ℕ → Option (List ℕ) → ℕ → Option ℕ × Option (List ℕ)
unfolding scan after_scan
f_b64_pton src target targsize =
    after_scan (scan targsize src (record { target = target; tarindex = 0; state = 0 }))
