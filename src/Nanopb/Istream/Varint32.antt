-- ===== src/Nanopb/Istream/Varint32.antt =====
-- `pb_decode_varint32` on a buffer: varints that stand for a `uint32_t`, padded or not.
use study_hours.Common.{
  ℕ, zero, suc, ◌+◌, ◌-◌, ◌*◌, ◌%◌, ◌^◌, ◌≤◌, ◌<◌, ◌≡◌, refl, arith, bit_or_high, u8, u32, low_bits,
  test_bit, shr, leb, ◌==◌, if◌then◌else◌, Bool, false, Bool-cases, inl, inr, Option, List, [], ◌∷◌,
  ◌++◌, length,
}
use native.Mathlib.Nat.{pow-le-pow_right}
use study_hours.Nanopb.Run.{done, Message}
use study_hours.Nanopb.Wire.{IsVarint, varint_value}
use study_hours.Nanopb.Istream.{
  Istream, buffer_stream, add_byte32, check_fifth_byte, varint32_loop, varint32_tail,
  pb_decode_varint32, pb_decode_varint32_eof,
}
use study_hours.Nanopb.Istream.Varint.{
  pb_readbyte-buffer, test_bit-low, test_bit-high, shift_seven, group_below, split_value,
}

nonzero_group : (g P : ℕ) → 0 < g → P ≤ g * P
nonzero_group g P h = grind arith

-- From bit 32 on a group that fits is zero.
padding : (p result b : ℕ) → 32 ≤ p → result + b % 128 * 2 ^ p < 2 ^ 32 → b % 128 ≡ 0
padding p result b hp fits = elim (Bool-cases (b % 128 == 0)) [
  | inl e ↦ ground arith
  | inr e ↦ absurd (
      omega (
        arith,
        nonzero_group (b % 128) (2 ^ p) (ground arith),
        pow-le-pow_right {n = 2} (omega arith) hp,
      ))
]

four_bits : (p result b : ℕ) → p ≡ 28 → result + b % 128 * 2 ^ p < 2 ^ 32 → low_bits (shr b 4) 3 ≡ 0
four_bits p result b e fits =
    let fits' : result + b % 128 * 2 ^ 28 < 2 ^ 32 = rw e at fits in omega arith

module _ {ℓ} {S : Type ℓ} where
  add_byte32-fits :
      (p result b : ℕ) (s : Istream S)
      → result < 2 ^ p
      → result + b % 128 * 2 ^ p < 2 ^ 32
      → add_byte32 p result b s ≡ done (result + b % 128 * 2 ^ p) s
  unfolding add_byte32
  add_byte32-fits p result b s hr fits = elim (Bool-cases (leb 32 p)) [
    | inl e ↦ rw (e, padding p result b (ground arith) fits) (ground arith)
    | inr e ↦ rw (e, no_wrap, bit_or_high p result (b % 128) hr)
  ]
    where
      no_wrap : u32 (low_bits b 7 * 2 ^ p) ≡ b % 128 * 2 ^ p
      no_wrap = omega arith

  check_fifth_byte-fits :
      (p result b : ℕ) (s : Istream S)
      → result + b % 128 * 2 ^ p < 2 ^ 32
      → check_fifth_byte (p + 7) b (result + b % 128 * 2 ^ p) s ≡ done (result + b % 128 * 2 ^ p) s
  unfolding check_fifth_byte
  check_fifth_byte-fits p result b s fits = elim (Bool-cases (p + 7 == 35)) [
    | inl e ↦ rw (e, four_bits p result b (ground arith) fits)
    | inr e ↦ rw e
  ]

round :
    (fuel p result b : ℕ) (source : List ℕ) (left : ℕ) (e : Option Message)
    → p ≤ 70
    → 0 < left
    → result < 2 ^ p
    → result + b % 128 * 2 ^ p < 2 ^ 32
    → varint32_loop (suc fuel) p result (buffer_stream (b ∷ source) left e)
      ≡ (if test_bit b 7
            then varint32_loop fuel (p + 7) (result + b % 128 * 2 ^ p)
            else check_fifth_byte (p + 7) b (result + b % 128 * 2 ^ p))
          (buffer_stream source (left - 1) e)
round fuel p result b source left e hp hl hr fits =
    unfold varint32_loop in
    rw (
      pb_readbyte-buffer b source left e hl,
      add_byte32-fits p result b (buffer_stream source (left - 1) e) hr fits,
      next,
    )
  where
    next : u8 (p + 7) ≡ p + 7
    next = omega arith

varint32_loop-varint :
    (bs : List ℕ) (fuel p result : ℕ) (rest : List ℕ) (left : ℕ) (e : Option Message)
    → IsVarint bs
    → length bs ≤ fuel
    → p + 7 * length bs ≤ 77
    → length bs ≤ left
    → result < 2 ^ p
    → result + varint_value bs * 2 ^ p < 2 ^ 32
    → varint32_loop fuel p result (buffer_stream (bs ++ rest) left e)
      ≡ done (result + varint_value bs * 2 ^ p) (buffer_stream rest (left - length bs) e)
varint32_loop-varint [] fuel p result rest left e h hf hp hl hr fits = absurd h
varint32_loop-varint (b ∷ []) zero p result rest left e h hf hp hl hr fits = absurd (omega arith)
varint32_loop-varint (b ∷ c ∷ bs) zero p result rest left e h hf hp hl hr fits =
    absurd (omega arith)
varint32_loop-varint (b ∷ []) (suc fuel) p result rest left e h hf hp hl hr fits =
    rw
      (
        round fuel p result b rest left e (omega arith) (omega arith) hr (omega arith),
        test_bit-low b h,
        check_fifth_byte-fits p result b (buffer_stream rest (left - 1) e) (omega arith),
      )
      (rw value refl)
  where
    value : b % 128 * 2 ^ p ≡ (b % 128 + 0) * 2 ^ p
    value = omega arith
varint32_loop-varint (b ∷ c ∷ bs) (suc fuel) p result rest left e h hf hp hl hr fits =
    rw
      (
        round fuel p result b (c ∷ bs ++ rest) left e (omega arith) (omega arith) hr
            (omega (arith, split_value b p (c ∷ bs))),
        test_bit-high b h.0 h.1,
        varint32_loop-varint (c ∷ bs) fuel (p + 7) (result + b % 128 * 2 ^ p) rest (left - 1) e h.2
            (omega arith) (omega arith) (omega arith)
            (omega (arith, group_below (b % 128) (2 ^ p) (omega arith), shift_seven p))
            (omega (arith, split_value b p (c ∷ bs))),
      )
      (ground (arith, split_value b p (c ∷ bs)))

varint32_tail-varint :
    (b : ℕ) (bs rest : List ℕ) (left : ℕ) (e : Option Message)
    → IsVarint (b ∷ bs)
    → length bs ≤ 9
    → length bs ≤ left
    → varint_value (b ∷ bs) < 2 ^ 32
    → varint32_tail b (buffer_stream (bs ++ rest) left e)
      ≡ done (varint_value (b ∷ bs)) (buffer_stream rest (left - length bs) e)
unfolding varint32_tail
varint32_tail-varint b [] rest left e h short fits value = rw (test_bit-low b h) (ground arith)
varint32_tail-varint b (c ∷ bs) rest left e h short fits value =
    rw
      (
        test_bit-high b h.0 h.1,
        varint32_loop-varint (c ∷ bs) (suc left) 7 (b % 128) rest left e h.2 (omega arith)
            (omega arith) fits (omega arith) (omega arith),
      )
      (ground arith)

pub pb_decode_varint32_eof-varint :
    (bs rest : List ℕ) (left : ℕ) (e : Option Message) (eof : Bool)
    → IsVarint bs
    → length bs ≤ 10
    → length bs ≤ left
    → varint_value bs < 2 ^ 32
    → pb_decode_varint32_eof (record { stream = buffer_stream (bs ++ rest) left e; eof = eof })
      ≡ done
          (varint_value bs)
          (record { stream = buffer_stream rest (left - length bs) e; eof = eof })
unfolding pb_decode_varint32_eof
pb_decode_varint32_eof-varint [] rest left e eof h short fits value = absurd h
pb_decode_varint32_eof-varint (b ∷ bs) rest left e eof h short fits value =
    rw
      (
        pb_readbyte-buffer b (bs ++ rest) left e (omega arith),
        varint32_tail-varint b bs rest (left - 1) e h (omega arith) (omega arith) value,
      )
      (ground arith)

-- A varint of at most ten bytes that stands for a `uint32_t` is read whole, also where zero bytes
-- pad it.
pub pb_decode_varint32-varint :
    (bs rest : List ℕ) (left : ℕ) (e : Option Message)
    → IsVarint bs
    → length bs ≤ 10
    → length bs ≤ left
    → varint_value bs < 2 ^ 32
    → pb_decode_varint32 (buffer_stream (bs ++ rest) left e)
      ≡ done (varint_value bs) (buffer_stream rest (left - length bs) e)
pb_decode_varint32-varint bs rest left e h short fits value =
    unfold pb_decode_varint32 in
    rw (pb_decode_varint32_eof-varint bs rest left e false h short fits value)
