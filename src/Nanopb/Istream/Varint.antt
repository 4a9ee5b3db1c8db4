-- ===== src/Nanopb/Istream/Varint.antt =====
-- `pb_decode_varint` on a buffer: every varint of at most ten bytes whose value fits is read whole.
use study_hours.Common.{
  ℕ, zero, suc, ◌+◌, ◌-◌, ◌*◌, ◌%◌, ◌^◌, ◌≤◌, ◌<◌, ◌≡◌, refl, ap, ◌∙◌, arith, bit_or_high, u8, u64,
  low_bits, test_bit, leb-false, if◌then◌else◌, true, false, Option, List, [], ◌∷◌, ◌++◌, length,
}
use native.Mathlib.Numerals.{towards_suc}
use study_hours.Nanopb.Run.{done, Message, return}
use study_hours.Nanopb.Wire.{IsVarint, varint_value}
use study_hours.Nanopb.Istream.{buffer_stream, buf_read, pb_readbyte, varint_loop, pb_decode_varint}

pub shift_seven : (p : ℕ) → 2 ^ (p + 7) ≡ 128 * 2 ^ p
shift_seven p = simp towards_suc (omega arith)

pub group_below : (g P : ℕ) → g < 128 → g * P + P ≤ 128 * P
group_below g P h = grind arith

pub pb_readbyte-buffer :
    (b : ℕ) (source : List ℕ) (left : ℕ) (e : Option Message)
    → 0 < left
    → pb_readbyte (buffer_stream (b ∷ source) left e) ≡ done b (buffer_stream source (left - 1) e)
unfolding pb_readbyte buf_read
pb_readbyte-buffer b source left e h = ground arith

pub test_bit-low : (b : ℕ) → b < 128 → test_bit b 7 ≡ false
test_bit-low b h = ground arith

pub test_bit-high : (b : ℕ) → 128 ≤ b → b < 256 → test_bit b 7 ≡ true
test_bit-high b h k = ground arith

-- One round of the loop, on a byte whose group fits.
round :
    (fuel p result b : ℕ) (source : List ℕ) (left : ℕ) (e : Option Message)
    → p < 64
    → 0 < left
    → result < 2 ^ p
    → result + b % 128 * 2 ^ p < 2 ^ 64
    → varint_loop (suc fuel) p result (buffer_stream (b ∷ source) left e)
      ≡ (if test_bit b 7
            then varint_loop fuel (p + 7) (result + b % 128 * 2 ^ p)
            else return (result + b % 128 * 2 ^ p))
          (buffer_stream source (left - 1) e)
unfolding varint_loop
round fuel p result b source left e hp hl hr fits = rw (
  leb-false 64 p hp,
  pb_readbyte-buffer b source left e hl,
  no_wrap,
  bit_or_high p result (b % 128) hr,
  next,
)
  where
    no_wrap : u64 (low_bits b 7 * 2 ^ p) ≡ b % 128 * 2 ^ p
    no_wrap = omega arith

    next : u8 (p + 7) ≡ p + 7
    next = omega arith

-- The lowest group and the rest of a value, both from bit `p` on.
pub split_value :
    (b p : ℕ) (bs : List ℕ)
    → varint_value (b ∷ bs) * 2 ^ p ≡ b % 128 * 2 ^ p + varint_value bs * 2 ^ (p + 7)
split_value b p bs = omega (arith, ap (λ (t : ℕ). varint_value bs * t) (shift_seven p))

varint_loop-varint :
    (bs : List ℕ) (fuel p result : ℕ) (rest : List ℕ) (left : ℕ) (e : Option Message)
    → IsVarint bs
    → length bs ≤ fuel
    → p + 7 * length bs ≤ 70
    → length bs ≤ left
    → result < 2 ^ p
    → result + varint_value bs * 2 ^ p < 2 ^ 64
    → varint_loop fuel p result (buffer_stream (bs ++ rest) left e)
      ≡ done (result + varint_value bs * 2 ^ p) (buffer_stream rest (left - length bs) e)
varint_loop-varint [] fuel p result rest left e h hf hp hl hr fits = absurd h
varint_loop-varint (b ∷ []) zero p result rest left e h hf hp hl hr fits = absurd (omega arith)
varint_loop-varint (b ∷ c ∷ bs) zero p result rest left e h hf hp hl hr fits = absurd (omega arith)
varint_loop-varint (b ∷ []) (suc fuel) p result rest left e h hf hp hl hr fits =
    rw
      (
        round fuel p result b rest left e (omega arith) (omega arith) hr (omega arith),
        test_bit-low b h,
      )
      (rw value refl)
  where
    value : b % 128 * 2 ^ p ≡ (b % 128 + 0) * 2 ^ p
    value = omega arith
varint_loop-varint (b ∷ c ∷ bs) (suc fuel) p result rest left e h hf hp hl hr fits =
    rw
      (
        round fuel p result b (c ∷ bs ++ rest) left e (omega arith) (omega arith) hr
            (omega (arith, split_value b p (c ∷ bs))),
        test_bit-high b h.0 h.1,
        varint_loop-varint (c ∷ bs) fuel (p + 7) (result + b % 128 * 2 ^ p) rest (left - 1) e h.2
            (omega arith) (omega arith) (omega arith)
            (omega (arith, group_below (b % 128) (2 ^ p) (omega arith), shift_seven p))
            (omega (arith, split_value b p (c ∷ bs))),
      )
      (ground (arith, split_value b p (c ∷ bs)))

-- A varint of at most ten bytes that stands for a `uint64_t` is read whole, wherever the buffer
-- goes on.
pub pb_decode_varint-varint :
    (bs rest : List ℕ) (left : ℕ) (e : Option Message)
    → IsVarint bs
    → length bs ≤ 10
    → length bs ≤ left
    → varint_value bs < 2 ^ 64
    → pb_decode_varint (buffer_stream (bs ++ rest) left e)
      ≡ done (varint_value bs) (buffer_stream rest (left - length bs) e)
unfolding pb_decode_varint
pb_decode_varint-varint bs rest left e h short fits value =
    varint_loop-varint bs 11 0 0 rest left e h (omega arith) (omega arith) fits (omega arith)
      (omega arith)
    ∙ rw same
  where
    same : 0 + varint_value bs * 2 ^ 0 ≡ varint_value bs
    same = omega arith
