-- ===== src/Nanopb/Istream/Overlong.antt =====
-- pb_decode_varint32 on a varint that is longer than any valid one.
use study_hours.Common.{
  ℕ, ◌*◌, ◌<◌, ◌≡◌, none, List, [], ◌∷◌, ◌++◌, zero-bit_or, arith, bit_or, u32, low_bits,
}
use study_hours.Nanopb.Run.{done}
use study_hours.Nanopb.Istream.{buffer_stream, pb_istream_from_buffer, pb_decode_varint32}
use study_hours.Nanopb.Istream.Varint.{test_bit-low}

-- 37 bytes that carry no bits and say that another byte follows.
abbrev pub padding : List ℕ
padding =
    128 ∷ 128 ∷ 128 ∷ 128 ∷ 128 ∷ 128 ∷ 128 ∷ 128 ∷ 128 ∷ 128 ∷ 128 ∷ 128 ∷ 128 ∷ 128 ∷ 128 ∷ 128
    ∷ 128 ∷ 128 ∷ 128 ∷ 128 ∷ 128 ∷ 128 ∷ 128 ∷ 128 ∷ 128 ∷ 128 ∷ 128 ∷ 128 ∷ 128 ∷ 128 ∷ 128 ∷ 128
    ∷ 128 ∷ 128 ∷ 128 ∷ 128 ∷ 128 ∷ []

shifted : (b : ℕ) → b < 128 → bit_or 0 (u32 (low_bits b 7 * 8)) ≡ b * 8
shifted b h = omega (arith, zero-bit_or (u32 (low_bits b 7 * 8)))

-- A last byte below 128 behind 37 bytes 0x80 is read as 8 times that byte: `bitpos` is a byte, and
-- has wrapped around to 3.
pub pb_decode_varint32_wraps :
    (b : ℕ)
    → b < 128
    → pb_decode_varint32 (pb_istream_from_buffer (padding ++ (b ∷ [])) 38)
      ≡ done (b * 8) (buffer_stream [] 0 none)
unfolding pb_istream_from_buffer pb_decode_varint32 study_hours.Nanopb.Istream.pb_readbyte
    study_hours.Nanopb.Istream.buf_read study_hours.Nanopb.Istream.varint32_loop
pb_decode_varint32_wraps b h = rw (test_bit-low b h, shifted b h)
