-- ===== src/Nanopb/Bitmap.antt =====
-- Numbers as sets of bits, for the words of `fields_seen`.
use Prim.Native.Nat.{max}
use native.Mathlib.Nat.{pow-succ', one-le-pow, pow-le-pow_right}
use study_hours.Common.{
  all_below, all_below→, →all_below, iff_Bool, ℕ, zero, suc, ◌-◌, ◌/◌, ◌%◌, ◌^◌, ◌≤◌, ◌<◌, ◌≡◌,
  refl, sym, ◌∙◌, ap, inl, inr, ltb, ltb→lt, ◌==◌, ==_iff, if◌then◌else◌, Bool, true, false,
  Bool-cases, bit_or, bit_or_halves, arith,
}

abbrev pub bit : ℕ → ℕ → ℕ
bit zero x = x % 2
bit (suc j) x = bit j (x / 2)

abbrev pub flag : Bool → ℕ
flag b = if b then 1 else 0

pub bit-bit_or : (j a b : ℕ) → bit j (bit_or a b) ≡ max (bit j a) (bit j b)
bit-bit_or zero a b = omega (arith, bit_or_halves a b)
bit-bit_or (suc j) a b = ap (bit j) half ∙ bit-bit_or j (a / 2) (b / 2)
  where
    half : bit_or a b / 2 ≡ bit_or (a / 2) (b / 2)
    half = omega (arith, bit_or_halves a b)

bit-zero : (j : ℕ) → bit j 0 ≡ 0
bit-zero zero = omega arith
bit-zero (suc j) = bit-zero j

pub bit-pow : (j k : ℕ) → bit j (2 ^ k) ≡ flag (j == k)
bit-pow zero zero = refl
bit-pow (suc j) zero = bit-zero j ∙ ground arith
bit-pow zero (suc k) = ground (arith, pow-succ' 2 k)
bit-pow (suc j) (suc k) = ap (bit j) half ∙ (bit-pow j k ∙ ground arith)
  where
    half : 2 ^ suc k / 2 ≡ 2 ^ k
    half = omega (arith, pow-succ' 2 k)

pub bit_or-below : (n a b : ℕ) → a < 2 ^ n → b < 2 ^ n → bit_or a b < 2 ^ n
bit_or-below zero zero zero p q = omega arith
bit_or-below zero (suc a) b p q = absurd (omega arith)
bit_or-below zero zero (suc b) p q = absurd (omega arith)
bit_or-below (suc n) a b p q = omega (
  arith,
  pow-succ' 2 n,
  bit_or_halves a b,
  bit_or-below n (a / 2) (b / 2) (omega (arith, pow-succ' 2 n)) (omega (arith, pow-succ' 2 n)),
)

-- `2 ^ c - 1` has the bits below `c`.
pub bit-ones : (j c : ℕ) → bit j (2 ^ c - 1) ≡ flag (ltb j c)
bit-ones j zero = bit-zero j ∙ ground arith
bit-ones zero (suc c) = ground (arith, pow-succ' 2 c, one-le-pow c 2)
bit-ones (suc j) (suc c) = ap (bit j) half ∙ (bit-ones j c ∙ ground arith)
  where
    half : (2 ^ suc c - 1) / 2 ≡ 2 ^ c - 1
    half = omega (arith, pow-succ' 2 c, one-le-pow c 2 (omega arith))

bits_ext : (n a b : ℕ) → a < 2 ^ n → b < 2 ^ n → ((j : ℕ) → j < n → bit j a ≡ bit j b) → a ≡ b
bits_ext zero a b p q h = omega arith
bits_ext (suc n) a b p q h = omega (
  arith,
  h 0 (omega arith),
  bits_ext n (a / 2) (b / 2) (omega (arith, pow-succ' 2 n)) (omega (arith, pow-succ' 2 n))
      (λ j below. h (suc j) (omega arith)),
)

flag-true : (b : Bool) → flag b ≡ 1 → b ≡ true
flag-true true h = refl
flag-true false h = absurd (omega arith)

-- A word is full up to `c` if the set that it stands for holds all numbers below `c`, and no other.
pub full_word :
    (c a : ℕ) (f : ℕ → Bool)
    → c ≤ 32
    → a < 2 ^ 32
    → ((j : ℕ) → j < 32 → bit j a ≡ flag (f j))
    → ((j : ℕ) → c ≤ j → j < 32 → f j ≡ false)
    → (a == 2 ^ c - 1) ≡ all_below f c
full_word c a f small below bits above =
    iff_Bool (a == 2 ^ c - 1) (all_below f c)
      (λ e. →all_below f c (λ j p. flag-true (f j) (
        sym (bits j (omega arith))
        ∙ (ap (bit j) ((==_iff a (2 ^ c - 1)).0 e) ∙ (bit-ones j c ∙ ground arith)))))
      (λ e. (==_iff a (2 ^ c - 1)).1 (
        bits_ext 32 a (2 ^ c - 1) below fits (λ j p. bits j p ∙ (same j p e ∙ sym (bit-ones j c)))))
  where
    fits : 2 ^ c - 1 < 2 ^ 32
    fits = omega (arith, pow-le-pow_right {n = 2} (omega arith) small)

    same : (j : ℕ) → j < 32 → all_below f c ≡ true → flag (f j) ≡ flag (ltb j c)
    same j p e = elim (Bool-cases (ltb j c)) [
      | inl inside ↦ rw (inside, all_below→ f c j e (ltb→lt j c inside)) refl
      | inr outside ↦ rw (outside, above j (ground arith) p) refl
    ]
