-- ===== src/Common/Words.antt =====
-- Machine words as native numbers: `size_t` and `uint64_t` have 64 bits, `pb_size_t` and
-- `uint32_t` have 32, a byte has 8. A cast is a remainder, a shift a product or a quotient.
use Prim.Native.Nat.{ℕ, ◌-◌, ◌/◌, ◌%◌, ◌^◌, ◌<◌}
use mathlib.Core.Bool.{Bool, not}
use study_hours.Common.Tests.{◌==◌}

abbrev pub u8 : ℕ → ℕ
u8 n = n % 2 ^ 8

abbrev pub u16 : ℕ → ℕ
u16 n = n % 2 ^ 16

abbrev pub u32 : ℕ → ℕ
u32 n = n % 2 ^ 32

abbrev pub u64 : ℕ → ℕ
u64 n = n % 2 ^ 64

-- `x & (2 ^ k - 1)`.
abbrev pub low_bits : ℕ → ℕ → ℕ
low_bits x k = x % 2 ^ k

abbrev pub shr : ℕ → ℕ → ℕ
shr x k = x / 2 ^ k

-- `x & (1 << k)` is not 0.
abbrev pub test_bit : ℕ → ℕ → Bool
test_bit x k = not (x / 2 ^ k % 2 == 0)

-- `~x` in 64 bits.
abbrev pub not64 : ℕ → ℕ
not64 x = 2 ^ 64 - 1 - x % 2 ^ 64

abbrev pub IsByte : ℕ → Type 0
IsByte b = b < 256

abbrev pub IsU32 : ℕ → Type 0
IsU32 v = v < 2 ^ 32

abbrev pub IsU64 : ℕ → Type 0
IsU64 v = v < 2 ^ 64
