-- ===== src/Nanopb/Codec/Fixed.antt =====
-- Round trips of the fixed width numbers, of tags and of strings through a buffer.
use study_hours.Common.{
  ℕ, ◌+◌, ◌-◌, ◌*◌, ◌/◌, ◌%◌, ◌^◌, ◌≤◌, ◌<◌, ◌≡◌, refl, ap, arith, u64, low_bits, shr, bit_or,
  bit_or_high, bit_or_comm, ltb-false, false, Option, none, List, [], ◌∷◌, ◌++◌, length,
  take-append, drop-append,
}
use native.Mathlib.Nat.{le_refl}
use study_hours.Nanopb.Run.{done, Message}
use study_hours.Nanopb.Wire.{varint, varint-IsVarint, varint_value-varint, length-varint}
use study_hours.Nanopb.Ostream.{
  Ostream, pb_encode_varint, pb_encode_fixed32, pb_encode_fixed64, pb_encode_tag,
  pb_ostream_from_buffer,
}
use study_hours.Nanopb.Istream.{
  buffer_stream, buf_read, read_bytes, pb_read, pb_istream_from_buffer,
}
use study_hours.Nanopb.Istream.Varint32.{pb_decode_varint32_eof-varint}
use study_hours.Nanopb.Reader.{pb_decode_fixed32, pb_decode_fixed64, pb_decode_tag}
use study_hours.Nanopb.Codec.Varint.{buffer_ostream, pb_write-buffer}

-- A read that the stream still holds returns the next bytes.
pub read_bytes-buffer :
    (bytes rest : List ℕ) (left : ℕ) (e : Option Message)
    → length bytes ≤ left
    → read_bytes (length bytes) (buffer_stream (bytes ++ rest) left e)
      ≡ done bytes (buffer_stream rest (left - length bytes) e)
unfolding read_bytes buf_read
read_bytes-buffer bytes rest left e fits =
    rw (ltb-false left (length bytes) fits, take-append bytes rest, drop-append bytes rest)

pub pb_read-buffer :
    (bytes rest : List ℕ) (left : ℕ) (e : Option Message)
    → length bytes ≤ left
    → pb_read (length bytes) (buffer_stream (bytes ++ rest) left e)
      ≡ done bytes (buffer_stream rest (left - length bytes) e)
pb_read-buffer bytes rest left e fits = unfold pb_read in read_bytes-buffer bytes rest left e fits

-- The bytes of a `uint32_t` and of a `uint64_t`, the lowest first.
abbrev pub bytes32 : ℕ → List ℕ
bytes32 v = low_bits v 8 ∷ low_bits (shr v 8) 8 ∷ low_bits (shr v 16) 8 ∷ low_bits (shr v 24) 8 ∷ []

abbrev pub bytes64 : ℕ → List ℕ
bytes64 v =
    low_bits v 8
    ∷ low_bits (shr v 8) 8
    ∷ low_bits (shr v 16) 8
    ∷ low_bits (shr v 24) 8
    ∷ low_bits (shr v 32) 8
    ∷ low_bits (shr v 40) 8
    ∷ low_bits (shr v 48) 8
    ∷ low_bits (shr v 56) 8
    ∷ []

-- One more byte above the bits that are there.
join8 : (v : ℕ) → bit_or (v % 2 ^ 8) (v / 2 ^ 8 % 2 ^ 8 * 2 ^ 8) ≡ v % 2 ^ 16
join8 v = omega (arith, bit_or_high 8 (v % 2 ^ 8) (v / 2 ^ 8 % 2 ^ 8) (omega arith))

join16 : (v : ℕ) → bit_or (v % 2 ^ 16) (v / 2 ^ 16 % 2 ^ 8 * 2 ^ 16) ≡ v % 2 ^ 24
join16 v = omega (arith, bit_or_high 16 (v % 2 ^ 16) (v / 2 ^ 16 % 2 ^ 8) (omega arith))

join24 : (v : ℕ) → bit_or (v % 2 ^ 24) (v / 2 ^ 24 % 2 ^ 8 * 2 ^ 24) ≡ v % 2 ^ 32
join24 v = omega (arith, bit_or_high 24 (v % 2 ^ 24) (v / 2 ^ 24 % 2 ^ 8) (omega arith))

join32 : (v : ℕ) → bit_or (v % 2 ^ 32) (v / 2 ^ 32 % 2 ^ 8 * 2 ^ 32) ≡ v % 2 ^ 40
join32 v = omega (arith, bit_or_high 32 (v % 2 ^ 32) (v / 2 ^ 32 % 2 ^ 8) (omega arith))

join40 : (v : ℕ) → bit_or (v % 2 ^ 40) (v / 2 ^ 40 % 2 ^ 8 * 2 ^ 40) ≡ v % 2 ^ 48
join40 v = omega (arith, bit_or_high 40 (v % 2 ^ 40) (v / 2 ^ 40 % 2 ^ 8) (omega arith))

join48 : (v : ℕ) → bit_or (v % 2 ^ 48) (v / 2 ^ 48 % 2 ^ 8 * 2 ^ 48) ≡ v % 2 ^ 56
join48 v = omega (arith, bit_or_high 48 (v % 2 ^ 48) (v / 2 ^ 48 % 2 ^ 8) (omega arith))

join56 : (v : ℕ) → bit_or (v % 2 ^ 56) (v / 2 ^ 56 % 2 ^ 8 * 2 ^ 56) ≡ v % 2 ^ 64
join56 v = omega (arith, bit_or_high 56 (v % 2 ^ 56) (v / 2 ^ 56 % 2 ^ 8) (omega arith))

pub pb_decode_fixed32-bytes32 :
    (v : ℕ) (rest : List ℕ) (left : ℕ) (e : Option Message)
    → v < 2 ^ 32
    → 4 ≤ left
    → pb_decode_fixed32 (buffer_stream (bytes32 v ++ rest) left e)
      ≡ done v (buffer_stream rest (left - 4) e)
unfolding pb_decode_fixed32
pb_decode_fixed32-bytes32 v rest left e h fits =
    rw (pb_read-buffer (bytes32 v) rest left e fits, join8 v, join16 v, join24 v) (rw whole)
  where
    whole : v % 2 ^ 32 ≡ v
    whole = omega arith

pub pb_decode_fixed64-bytes64 :
    (v : ℕ) (rest : List ℕ) (left : ℕ) (e : Option Message)
    → v < 2 ^ 64
    → 8 ≤ left
    → pb_decode_fixed64 (buffer_stream (bytes64 v ++ rest) left e)
      ≡ done v (buffer_stream rest (left - 8) e)
unfolding pb_decode_fixed64
pb_decode_fixed64-bytes64 v rest left e h fits =
    rw
      (
        pb_read-buffer (bytes64 v) rest left e fits,
        join8 v,
        join16 v,
        join24 v,
        join32 v,
        join40 v,
        join48 v,
        join56 v,
      )
      (rw whole)
  where
    whole : v % 2 ^ 64 ≡ v
    whole = omega arith

-- Four bytes of room are enough for `pb_encode_fixed32`, and eight for `pb_encode_fixed64`; the
-- decoders return the value and take exactly those bytes.
pub pb_decode_fixed-pb_encode_fixed :
    (v w room32 room64 : ℕ)
    → v < 2 ^ 32
    → w < 2 ^ 64
    → 4 ≤ room32
    → room32 < 2 ^ 64
    → 8 ≤ room64
    → room64 < 2 ^ 64
    → (out32 out64 : Ostream (List ℕ)) × (pb_encode_fixed32 v (pb_ostream_from_buffer room32)
        ≡ done tt out32)
      × (out32.bytes_written ≡ 4)
      × (pb_decode_fixed32 (pb_istream_from_buffer out32.state 4)
          ≡ done v (buffer_stream [] 0 none))
      × (pb_encode_fixed64 w (pb_ostream_from_buffer room64) ≡ done tt out64)
      × (out64.bytes_written ≡ 8)
      × (pb_decode_fixed64 (pb_istream_from_buffer out64.state 8)
          ≡ done w (buffer_stream [] 0 none))
unfolding pb_ostream_from_buffer pb_istream_from_buffer pb_encode_fixed32 pb_encode_fixed64
pb_decode_fixed-pb_encode_fixed v w room32 room64 hv hw enough32 small32 enough64 small64 = (
  buffer_ostream (bytes32 v) room32 4 none,
  buffer_ostream (bytes64 w) room64 8 none,
  pb_write-buffer (bytes32 v) [] room32 0 none enough32 small32,
  refl,
  pb_decode_fixed32-bytes32 v [] 4 none hv (le_refl _),
  pb_write-buffer (bytes64 w) [] room64 0 none enough64 small64,
  refl,
  pb_decode_fixed64-bytes64 w [] 8 none hw (le_refl _),
)

tag_value :
    (wire_type number : ℕ)
    → wire_type < 8
    → number < 2 ^ 29
    → bit_or (u64 (number * 2 ^ 3)) wire_type ≡ number * 8 + wire_type
tag_value wire_type number hw hn = omega (
  arith,
  bit_or_comm (u64 (number * 2 ^ 3)) wire_type,
  ap (λ (t : ℕ). bit_or wire_type t) no_wrap,
  bit_or_high 3 wire_type number hw,
)
  where
    no_wrap : u64 (number * 2 ^ 3) ≡ number * 2 ^ 3
    no_wrap = omega arith

pub pb_encode_tag-eq-varint {ℓ} :
    {S : Type ℓ} (wire_type number : ℕ) (s : Ostream S)
    → wire_type < 8
    → number < 2 ^ 29
    → pb_encode_tag wire_type number s ≡ pb_encode_varint (number * 8 + wire_type) s
unfolding pb_encode_tag
pb_encode_tag-eq-varint wire_type number s hw hn = rw (tag_value wire_type number hw hn)

pub pb_decode_tag-wire :
    (wire_type number : ℕ) (rest : List ℕ) (left : ℕ) (e : Option Message)
    → wire_type < 8
    → 0 < number
    → number < 2 ^ 29
    → length (varint (number * 8 + wire_type)) ≤ left
    → pb_decode_tag (buffer_stream (varint (number * 8 + wire_type) ++ rest) left e)
      ≡ done
          (record { wire_type = wire_type; number = number })
          (record {
            stream = buffer_stream rest (left - length (varint (number * 8 + wire_type))) e;
            eof = false;
          })
unfolding pb_decode_tag
pb_decode_tag-wire wire_type number rest left e hw pos hn fits =
    rw
      (
        pb_decode_varint32_eof-varint (varint t) rest left e false (varint-IsVarint t (omega arith))
            (length-varint t).1 fits (rw (varint_value-varint t (omega arith)) (omega arith)),
        varint_value-varint t (omega arith),
      )
      (ground arith)
  where
    t : ℕ
    t = number * 8 + wire_type
