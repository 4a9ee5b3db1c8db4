-- ===== src/Base64/Groups.antt =====
-- fbase64.c: what the decoder's loop does with the digits of a group.
use study_hours.Common.{
  ℕ, suc, ◌+◌, ◌*◌, ◌^◌, ◌<◌, ◌≡◌, refl, ap, bit_or, bit_or_high, bit_or_comm, u8, u32, low_bits,
  shr, leb-false, some, List, [], ◌∷◌, ◌++◌, length, get_or, set, IsByte, arith,
}
use study_hours.Base64.{
  Pton, base64_char, put_digit, scan, or_at, or_invalid, digit0, digit1, digit2, digit3,
}
use study_hours.Base64.Alphabet.{base64_index-base64_char, base64_char_plain}

or_sum : (k r g : ℕ) → r < 2 ^ k → bit_or (g * 2 ^ k) r ≡ g * 2 ^ k + r
or_sum k r g h = omega (arith, bit_or_comm (g * 2 ^ k) r, bit_or_high k r g h)

-- The bytes that the digits of three bytes give.
pub byte0 :
    (a b : ℕ) → IsByte a → IsByte b → u8 (bit_or (u8 (digit0 a * 2 ^ 2)) (shr (digit1 a b) 4)) ≡ a
byte0 a b p q = rw low (omega (arith, or_sum 2 (shr (digit1 a b) 4) (digit0 a) (omega arith)))
  where
    low : u8 (digit0 a * 2 ^ 2) ≡ digit0 a * 2 ^ 2
    low = omega arith

pub byte1 :
    (a b c : ℕ)
    → IsByte a
    → IsByte b
    → IsByte c
    → u8 (bit_or (u8 (low_bits (digit1 a b) 4 * 2 ^ 4)) (shr (digit2 b c) 2)) ≡ b
byte1 a b c p q r =
    rw low (omega (arith, or_sum 4 (shr (digit2 b c) 2) (low_bits (digit1 a b) 4) (omega arith)))
  where
    low : u8 (low_bits (digit1 a b) 4 * 2 ^ 4) ≡ low_bits (digit1 a b) 4 * 2 ^ 4
    low = omega arith

pub byte2 :
    (b c : ℕ)
    → IsByte b
    → IsByte c
    → u8 (bit_or (u8 (low_bits (digit2 b c) 2 * 2 ^ 6)) (digit3 c)) ≡ c
byte2 b c p q = rw low (omega (arith, or_sum 6 (digit3 c) (low_bits (digit2 b c) 2) (omega arith)))
  where
    low : u8 (low_bits (digit2 b c) 2 * 2 ^ 6) ≡ low_bits (digit2 b c) 2 * 2 ^ 6
    low = omega arith

set-append : (pre l : List ℕ) (k v : ℕ) → set (pre ++ l) (length pre + k) v ≡ pre ++ set l k v
set-append [] l k v = let first : 0 + k ≡ k = omega arith in rw first refl
set-append (x ∷ pre) l k v =
    let next : suc (length pre) + k ≡ suc (length pre + k) = omega arith in
    rw next (ap (λ t. x ∷ t) (set-append pre l k v))

pub get_or-append : (pre l : List ℕ) (k : ℕ) → get_or (pre ++ l) (length pre + k) 0 ≡ get_or l k 0
get_or-append [] l k = let first : 0 + k ≡ k = omega arith in rw first refl
get_or-append (x ∷ pre) l k =
    let next : suc (length pre) + k ≡ suc (length pre + k) = omega arith in
    rw next (get_or-append pre l k)

or_at-append :
    (pre l : List ℕ) (k low : ℕ) → or_at (length pre + k) low (pre ++ l) ≡ pre ++ or_at k low l
or_at-append pre l k low =
    rw (get_or-append pre l k, set-append pre l k (u8 (bit_or (get_or l k 0) low)))

-- The locals while `l` is what follows `pre` in the array, `k` bytes into it.
abbrev pub locals : List ℕ → List ℕ → ℕ → ℕ → Pton
locals pre l k state = record { target = some (pre ++ l); tarindex = length pre + k; state = state }

pub put_digit-state0 :
    (n v : ℕ) (pre l : List ℕ) (k : ℕ)
    → length pre + k < n
    → put_digit n v (locals pre l k 0) ≡ some (locals pre (set l k (u8 (v * 2 ^ 2))) k 1)
unfolding put_digit
put_digit-state0 n v pre l k h =
    rw (leb-false n (length pre + k) h, set-append pre l k (u8 (v * 2 ^ 2)))

pub put_digit-state1 :
    (n v : ℕ) (pre l : List ℕ) (k : ℕ)
    → n < 2 ^ 32
    → length pre + k + 1 < n
    → put_digit n v (locals pre l k 1)
      ≡ some (locals pre (set (or_at k (shr v 4) l) (suc k) (u8 (low_bits v 4 * 2 ^ 4))) (suc k) 2)
unfolding put_digit
put_digit-state1 n v pre l k small h =
    let next : u32 (length pre + k + 1) ≡ length pre + suc k = omega arith in
    rw (
      next,
      leb-false n (length pre + suc k) (omega arith),
      or_at-append pre l k (shr v 4),
      set-append pre (or_at k (shr v 4) l) (suc k) (u8 (low_bits v 4 * 2 ^ 4)),
    )

put_digit-state2 :
    (n v : ℕ) (pre l : List ℕ) (k : ℕ)
    → n < 2 ^ 32
    → length pre + k + 1 < n
    → put_digit n v (locals pre l k 2)
      ≡ some (locals pre (set (or_at k (shr v 2) l) (suc k) (u8 (low_bits v 2 * 2 ^ 6))) (suc k) 3)
unfolding put_digit
put_digit-state2 n v pre l k small h =
    let next : u32 (length pre + k + 1) ≡ length pre + suc k = omega arith in
    rw (
      next,
      leb-false n (length pre + suc k) (omega arith),
      or_at-append pre l k (shr v 2),
      set-append pre (or_at k (shr v 2) l) (suc k) (u8 (low_bits v 2 * 2 ^ 6)),
    )

put_digit-state3 :
    (n v : ℕ) (pre l : List ℕ) (k : ℕ)
    → n < 2 ^ 32
    → length pre + k < n
    → put_digit n v (locals pre l k 3) ≡ some (locals pre (or_at k v l) (suc k) 0)
unfolding put_digit
put_digit-state3 n v pre l k small h =
    let next : u32 (length pre + k + 1) ≡ length pre + suc k = omega arith in
    rw (leb-false n (length pre + k) h, next, or_at-append pre l k v)

pub scan-base64_char :
    (n v : ℕ) (src : List ℕ) (p : Pton)
    → v < 64
    → scan n (base64_char v ∷ src) p ≡ or_invalid p (scan n src) (put_digit n v p)
unfolding scan
scan-base64_char n v src p h = rw (
  (base64_char_plain v h).0,
  (base64_char_plain v h).1,
  (base64_char_plain v h).2,
  base64_index-base64_char v h,
)

-- One and a half, two and a half, and four digits of a group.
pub scan-two :
    (n a b x y : ℕ) (pre l src : List ℕ)
    → IsByte a
    → IsByte b
    → n < 2 ^ 32
    → length pre + 1 < n
    → scan n (base64_char (digit0 a) ∷ base64_char (digit1 a b) ∷ src) (locals pre (x ∷ y ∷ l) 0 0)
      ≡ scan n src (locals pre (a ∷ u8 (low_bits (digit1 a b) 4 * 2 ^ 4) ∷ l) 1 2)
scan-two n a b x y pre l src p q small h = rw (
  scan-base64_char n (digit0 a) (base64_char (digit1 a b) ∷ src) (locals pre (x ∷ y ∷ l) 0 0)
      (omega arith),
  put_digit-state0 n (digit0 a) pre (x ∷ y ∷ l) 0 (omega arith),
  scan-base64_char n (digit1 a b) src (locals pre (u8 (digit0 a * 2 ^ 2) ∷ y ∷ l) 0 1)
      (omega arith),
  put_digit-state1 n (digit1 a b) pre (u8 (digit0 a * 2 ^ 2) ∷ y ∷ l) 0 small (omega arith),
  byte0 a b p q,
)

pub scan-three :
    (n a b c x y z : ℕ) (pre l src : List ℕ)
    → IsByte a
    → IsByte b
    → IsByte c
    → n < 2 ^ 32
    → length pre + 2 < n
    → scan n
        (base64_char (digit0 a) ∷ base64_char (digit1 a b) ∷ base64_char (digit2 b c) ∷ src)
        (locals pre (x ∷ y ∷ z ∷ l) 0 0)
      ≡ scan n src (locals pre (a ∷ b ∷ u8 (low_bits (digit2 b c) 2 * 2 ^ 6) ∷ l) 2 3)
scan-three n a b c x y z pre l src p q r small h =
    let low = u8 (low_bits (digit1 a b) 4 * 2 ^ 4) in
    rw (
      scan-two n a b x y pre (z ∷ l) (base64_char (digit2 b c) ∷ src) p q small (omega arith),
      scan-base64_char n (digit2 b c) src (locals pre (a ∷ low ∷ z ∷ l) 1 2) (omega arith),
      put_digit-state2 n (digit2 b c) pre (a ∷ low ∷ z ∷ l) 1 small (omega arith),
      byte1 a b c p q r,
    )

pub scan-group :
    (n a b c x y z : ℕ) (pre l src : List ℕ)
    → IsByte a
    → IsByte b
    → IsByte c
    → n < 2 ^ 32
    → length pre + 2 < n
    → scan n
        (base64_char (digit0 a)
          ∷ base64_char (digit1 a b)
          ∷ base64_char (digit2 b c)
          ∷ base64_char (digit3 c)
          ∷ src)
        (locals pre (x ∷ y ∷ z ∷ l) 0 0)
      ≡ scan n src (locals pre (a ∷ b ∷ c ∷ l) 3 0)
scan-group n a b c x y z pre l src p q r small h =
    let low = u8 (low_bits (digit2 b c) 2 * 2 ^ 6) in
    rw (
      scan-three n a b c x y z pre l (base64_char (digit3 c) ∷ src) p q r small h,
      scan-base64_char n (digit3 c) src (locals pre (a ∷ b ∷ low ∷ l) 2 3) (omega arith),
      put_digit-state3 n (digit3 c) pre (a ∷ b ∷ low ∷ l) 2 small (omega arith),
      byte2 b c q r,
    )
