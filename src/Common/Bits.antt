-- ===== src/Common/Bits.antt =====
-- `|` of two numbers whose bits do not meet is their sum.
use Prim.Native.Nat.{ℕ, zero, suc, ◌+◌, ◌*◌, ◌/◌, ◌%◌, ◌^◌, ◌≤◌, ◌<◌, max}
use Prim.Native.Nat.{bit_or, digits, bit_or-bitwise}
use mathlib.Core.Path.{◌≡◌, refl, ap}
use native.Mathlib.Nat.{pow-suc}
use native.Mathlib.Omega.{arith}

-- The recursion that `bit_or` stands for, with its fuel.
abbrev or_digits : ℕ → ℕ → ℕ → ℕ
or_digits fuel a b = digits (λ y. y) max fuel a b

or_digits_fuel : (m n a b : ℕ) → a ≤ m → a ≤ n → or_digits m a b ≡ or_digits n a b
or_digits_fuel m n zero b p q = ends m n
  where
    ends : (m n : ℕ) → or_digits m zero b ≡ or_digits n zero b
    ends zero zero = refl
    ends zero (suc n) = refl
    ends (suc m) zero = refl
    ends (suc m) (suc n) = refl
or_digits_fuel zero n (suc a) b p q = absurd (omega arith)
or_digits_fuel (suc m) zero (suc a) b p q = absurd (omega arith)
or_digits_fuel (suc m) (suc n) (suc a) b p q =
    omega (arith, or_digits_fuel m n (suc a / 2) (b / 2) (omega arith) (omega arith))

pub zero-bit_or : (b : ℕ) → bit_or 0 b ≡ b
zero-bit_or b = bit_or-bitwise 0 b

-- The lowest digit of an `|`, and the rest.
pub bit_or_halves : (a b : ℕ) → bit_or a b ≡ bit_or (a / 2) (b / 2) * 2 + max (a % 2) (b % 2)
bit_or_halves zero b = omega (arith, zero-bit_or b, zero-bit_or (b / 2))
bit_or_halves (suc a) b = omega (
  arith,
  bit_or-bitwise (suc a) b,
  bit_or-bitwise (suc a / 2) (b / 2),
  or_digits_fuel a (suc a / 2) (suc a / 2) (b / 2) (omega arith) (omega arith),
)

-- `r | (g << k)`, for an `r` of at most `k` bits.
pub bit_or_high : (k r g : ℕ) → r < 2 ^ k → bit_or r (g * 2 ^ k) ≡ r + g * 2 ^ k
bit_or_high zero zero g h = omega (arith, zero-bit_or (g * 2 ^ 0))
bit_or_high zero (suc r) g h = absurd (omega arith)
bit_or_high (suc k) r g h = omega (
  arith,
  bit_or_halves r (g * 2 ^ suc k),
  ap (λ (t : ℕ). g * t) (pow-suc 2 k),
  pow-suc 2 k,
  bit_or_high k (r / 2) g (omega (arith, pow-suc 2 k)),
  ap (λ (t : ℕ). bit_or (r / 2) t) (half g k),
)
  where
    half : (g k : ℕ) → g * 2 ^ suc k / 2 ≡ g * 2 ^ k
    half g k = omega (arith, ap (λ (t : ℕ). g * t) (pow-suc 2 k))

bit_or_comm_below : (n a b : ℕ) → a ≤ n → b ≤ n → bit_or a b ≡ bit_or b a
bit_or_comm_below zero zero zero p q = refl
bit_or_comm_below zero zero (suc b) p q = absurd (omega arith)
bit_or_comm_below zero (suc a) b p q = absurd (omega arith)
bit_or_comm_below (suc n) a b p q = omega (
  arith,
  bit_or_halves a b,
  bit_or_halves b a,
  bit_or_comm_below n (a / 2) (b / 2) (omega arith) (omega arith),
)

pub bit_or_comm : (a b : ℕ) → bit_or a b ≡ bit_or b a
bit_or_comm a b = bit_or_comm_below (a + b) a b (omega arith) (omega arith)
