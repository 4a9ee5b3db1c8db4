-- ===== src/Nanopb/Allocation.antt =====
-- allocate_field of pb_decode.c: no size wraps around.
use native.Mathlib.Nat.{div-lt_iff_lt-mul, mul-le-mul, mul_comm}
use study_hours.Common.{
  ℕ, zero, suc, ◌-◌, ◌*◌, ◌/◌, ◌^◌, ◌≤◌, ◌<◌, ◌≡◌, refl, ltb, leb, le→leb, leb-false, ltb→lt, ◌==◌,
  if◌then◌else◌, false, Bool-cases, inl, inr, ◌||◌, u64, arith,
}
use study_hours.Nanopb.Run.{invalid_size, size_too_large}
use study_hours.Nanopb.Memory.{load_pointer}
use study_hours.Nanopb.World.{
  Allocator, World, product_overflows, allocate_field, error, keep_pointer,
}

-- A division by one factor tells whether a product passes `k`.
quotient_above : (k d a : ℕ) → 0 < a → ltb (k / a) d ≡ leb (suc k) (d * a)
quotient_above k d a pos = elim (Bool-cases (ltb (k / a) d)) [
  | inl e ↦
      let above : k < d * a = (div-lt_iff_lt-mul pos).0 (ltb→lt (k / a) d e) in
      rw (e, le→leb (suc k) (d * a) above)
  | inr e ↦ rw (e, leb-false (suc k) (d * a) (not_above e))
]
  where
    not_above : ltb (k / a) d ≡ false → d * a < suc k
    not_above e = ground (arith, (div-lt_iff_lt-mul {k = a} {x = k} {y = d} pos).1)

product_small : (n d a : ℕ) → d ≤ n → a ≤ n → d * a < suc (n * n)
product_small n d a p q = omega (arith, mul-le-mul p q)

product_overflows-leb : (d a : ℕ) → 0 < a → product_overflows d a ≡ leb (2 ^ 64) (d * a)
unfolding product_overflows
product_overflows-leb d a pos = elim (Bool-cases (leb (2 ^ 32) d || leb (2 ^ 32) a)) [
  | inl e ↦ rw e (quotient_above (2 ^ 64 - 1) d a pos)
  | inr e ↦ rw (e, leb-false (2 ^ 64) (d * a) (below e))
]
  where
    below : (leb (2 ^ 32) d || leb (2 ^ 32) a) ≡ false → d * a < 2 ^ 64
    below e = omega (arith, product_small (2 ^ 32 - 1) d a (ground arith) (ground arith))

positive : (n : ℕ) → (suc n == 0) ≡ false
positive n = ground arith

no_wrap : (d a : ℕ) → leb (2 ^ 64) (d * a) ≡ false → u64 (a * d) ≡ a * d
no_wrap d a e = ground (arith, mul_comm d a)

-- `allocate_field` fails on an empty size and on one whose product reaches 2 ^ 64, and otherwise
-- asks `realloc` for the product of its two sizes, as it is without wrapping around.
pub allocate_field_lem {ℓ κ} :
    {S : Type ℓ} {H : Type κ} (alloc : Allocator H) (p_data data_size array_size : ℕ)
    (w : World S H)
    → allocate_field alloc p_data data_size array_size w ≡ (
        if (data_size == 0) || (array_size == 0)
        then error invalid_size w
        else if leb (2 ^ 64) (data_size * array_size)
        then error size_too_large w
        else keep_pointer alloc p_data w
            (alloc.realloc (load_pointer w.mem p_data) (array_size * data_size) w.mem w.heap))
unfolding allocate_field
allocate_field_lem alloc p_data zero array_size w = refl
allocate_field_lem alloc p_data (suc d) zero w = rw (positive d) refl
allocate_field_lem alloc p_data (suc d) (suc a) w =
    elim (Bool-cases (leb (2 ^ 64) (suc d * suc a))) [
      | inl e ↦ rw (positive d, positive a, product_overflows-leb (suc d) (suc a) (omega arith), e)
      | inr e ↦ rw (
        positive d,
        positive a,
        product_overflows-leb (suc d) (suc a) (omega arith),
        e,
        no_wrap (suc d) (suc a) e,
      )
    ]
