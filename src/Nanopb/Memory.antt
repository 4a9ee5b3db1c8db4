-- ===== src/Nanopb/Memory.antt =====
-- The memory that message structs lie in: a byte at every address, numbers with their lowest byte
-- first. A pointer is an address of 8 bytes, and the null pointer is address 0.
use study_hours.Common.{
  ℕ, zero, suc, ◌+◌, ◌-◌, ◌*◌, ◌/◌, ◌%◌, ◌^◌, ltb, ◌==◌, if◌then◌else◌, Bool, true, not, ◌&&◌, List,
  [], ◌∷◌,
}

abbrev pub Mem : Type 0
Mem = ℕ → ℕ

abbrev pub write_byte : ℕ → ℕ → Mem → Mem
write_byte a b m j = if j == a then b else m j

unfoldable pub load : ℕ → Mem → ℕ → ℕ
load zero m a = 0
load (suc n) m a = m a + 256 * load n m (a + 1)

unfoldable pub store : ℕ → ℕ → ℕ → Mem → Mem
store zero a v m = m
store (suc n) a v m = store n (a + 1) (v / 256) (write_byte a (v % 256) m)

-- The bytes at `a`, `a + 1`, …
unfoldable pub load_bytes : ℕ → Mem → ℕ → List ℕ
load_bytes zero m a = []
load_bytes (suc n) m a = m a ∷ load_bytes n m (a + 1)

-- `memcpy` from a list of bytes.
unfoldable pub store_bytes : ℕ → List ℕ → Mem → Mem
store_bytes a [] m = m
store_bytes a (b ∷ bs) m = store_bytes (a + 1) bs (write_byte a b m)

-- `memset(a, 0, n)`
unfoldable pub store_zeros : ℕ → ℕ → Mem → Mem
store_zeros zero a m = m
store_zeros (suc n) a m = store_zeros n (a + 1) (write_byte a 0 m)

-- `*(const pb_size_t*)p`, `*(const void* const*)p` and `*(const bool*)p`.
abbrev pub load_size : Mem → ℕ → ℕ
load_size m a = load 4 m a

abbrev pub load_pointer : Mem → ℕ → ℕ
load_pointer m a = load 8 m a

abbrev pub load_bool : Mem → ℕ → Bool
load_bool m a = not (m a == 0)

-- A signed number of `n` bytes, widened to the bit pattern of an `int64_t`.
unfoldable pub load_signed : ℕ → Mem → ℕ → ℕ
load_signed n m a =
    let v = load n m a in if ltb v (2 ^ (8 * n - 1)) then v else v + 2 ^ 64 - 2 ^ (8 * n)

-- `strnlen`: the bytes before the first zero byte, at most `max_size`.
unfoldable pub string_length : ℕ → Mem → ℕ → ℕ
string_length zero m p = 0
string_length (suc max_size) m p =
    let rest = string_length max_size m (p + 1) in if m p == 0 then 0 else suc rest

-- The `n` bytes at `a` are all zero.
unfoldable pub all_zero : ℕ → Mem → ℕ → Bool
all_zero zero m a = true
all_zero (suc n) m a = (m a == 0) && all_zero n m (a + 1)
