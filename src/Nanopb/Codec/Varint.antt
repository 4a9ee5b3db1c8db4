-- ===== src/Nanopb/Codec/Varint.antt =====
-- Round trips of the varint helpers through a buffer.
use study_hours.Common.{
  ℕ, ◌+◌, ◌-◌, ◌*◌, ◌/◌, ◌%◌, ◌^◌, ◌≤◌, ◌<◌, ◌≡◌, ◌∙◌, arith, u64, not64, ◌==◌, leb, ltb-false,
  if◌then◌else◌, Option, none, some, List, [], ◌++◌, append-nil, length, take_all,
}
use native.Mathlib.Nat.{le_refl}
use study_hours.Nanopb.Run.{done, Message}
use study_hours.Nanopb.Wire.{varint, varint-IsVarint, varint_value-varint, length-varint}
use study_hours.Nanopb.Ostream.{
  Ostream, buf_write, pb_write, pb_encode_varint, pb_encode_svarint, pb_ostream_from_buffer,
}
use study_hours.Nanopb.Ostream.Varint.{pb_encode_varint-eq-write}
use study_hours.Nanopb.Istream.{buffer_stream, pb_decode_varint, pb_istream_from_buffer}
use study_hours.Nanopb.Istream.Varint.{pb_decode_varint-varint}
use study_hours.Nanopb.Reader.{pb_decode_svarint}

-- A stream over a buffer, at any point of its use.
abbrev pub buffer_ostream : List ℕ → ℕ → ℕ → Option Message → Ostream (List ℕ)
buffer_ostream dest max_size written errmsg = record {
  callback = some buf_write;
  state = dest;
  max_size = max_size;
  bytes_written = written;
  errmsg = errmsg;
}

-- A write that fits appends the bytes.
pub pb_write-buffer :
    (buf dest : List ℕ) (max_size written : ℕ) (e : Option Message)
    → written + length buf ≤ max_size
    → max_size < 2 ^ 64
    → pb_write buf (length buf) (buffer_ostream dest max_size written e)
      ≡ done tt (buffer_ostream (dest ++ buf) max_size (written + length buf) e)
unfolding pb_write buf_write
pb_write-buffer buf dest max_size written e fits small =
    rw (take_all buf, no_wrap, ltb-false max_size (written + length buf) fits)
  where
    no_wrap : u64 (written + length buf) ≡ written + length buf
    no_wrap = omega arith

pub pb_encode_varint-buffer :
    (v : ℕ) (dest : List ℕ) (max_size written : ℕ) (e : Option Message)
    → v < 2 ^ 64
    → written + length (varint v) ≤ max_size
    → max_size < 2 ^ 64
    → pb_encode_varint v (buffer_ostream dest max_size written e)
      ≡ done tt (buffer_ostream (dest ++ varint v) max_size (written + length (varint v)) e)
pb_encode_varint-buffer v dest max_size written e h fits small =
    pb_encode_varint-eq-write v (buffer_ostream dest max_size written e) h
    ∙ pb_write-buffer (varint v) dest max_size written e fits small

pub pb_decode_varint-wire :
    (v : ℕ) (rest : List ℕ) (left : ℕ) (e : Option Message)
    → v < 2 ^ 64
    → length (varint v) ≤ left
    → pb_decode_varint (buffer_stream (varint v ++ rest) left e)
      ≡ done v (buffer_stream rest (left - length (varint v)) e)
pb_decode_varint-wire v rest left e h fits =
    pb_decode_varint-varint (varint v) rest left e (varint-IsVarint v h) (length-varint v).1 fits
      (rw (varint_value-varint v h) h)
    ∙ rw (varint_value-varint v h)

-- `pb_encode_varint` into a buffer with room for ten bytes succeeds, and `pb_decode_varint` on
-- what it wrote returns the value and takes all of it.
pub pb_decode_varint-pb_encode_varint :
    (v bufsize : ℕ)
    → v < 2 ^ 64
    → 10 ≤ bufsize
    → bufsize < 2 ^ 64
    → (out : Ostream (List ℕ)) × (pb_encode_varint v (pb_ostream_from_buffer bufsize) ≡ done tt out)
      × (pb_decode_varint (pb_istream_from_buffer out.state out.bytes_written)
          ≡ done v (buffer_stream [] 0 none))
unfolding pb_ostream_from_buffer pb_istream_from_buffer
pb_decode_varint-pb_encode_varint v bufsize h room small = (
  buffer_ostream (varint v) bufsize (length (varint v)) none,
  pb_encode_varint-buffer v [] bufsize 0 none h (omega (arith, length-varint v)) small
      ∙ ground arith,
  rw append-nil at (pb_decode_varint-wire v [] (length (varint v)) none h (le_refl _))
      ∙ ground arith,
)

-- The zigzag form of an `int64_t`, given as its bit pattern.
abbrev pub zigzag : ℕ → ℕ
zigzag v = if leb (2 ^ 63) v then 2 ^ 65 - 1 - 2 * v else 2 * v

zigzag-lt : (v : ℕ) → v < 2 ^ 64 → zigzag v < 2 ^ 64
zigzag-lt v h = ground arith

pub pb_encode_svarint-eq-varint {ℓ} :
    {S : Type ℓ} (v : ℕ) (s : Ostream S)
    → v < 2 ^ 64
    → pb_encode_svarint v s ≡ pb_encode_varint (zigzag v) s
unfolding pb_encode_svarint
pb_encode_svarint-eq-varint v s h = rw same
  where
    same : (if leb (2 ^ 63) v then not64 (u64 (v * 2)) else u64 (v * 2)) ≡ zigzag v
    same = ground arith

pub pb_decode_svarint-wire :
    (v : ℕ) (rest : List ℕ) (left : ℕ) (e : Option Message)
    → v < 2 ^ 64
    → length (varint (zigzag v)) ≤ left
    → pb_decode_svarint (buffer_stream (varint (zigzag v) ++ rest) left e)
      ≡ done v (buffer_stream rest (left - length (varint (zigzag v))) e)
unfolding pb_decode_svarint
pb_decode_svarint-wire v rest left e h fits =
    rw (pb_decode_varint-wire (zigzag v) rest left e (zigzag-lt v h) fits, back)
  where
    back : (if zigzag v % 2 == 1 then not64 (zigzag v / 2 ^ 1) else zigzag v / 2 ^ 1) ≡ v
    back = ground arith

-- `pb_encode_svarint` into a buffer with room for ten bytes succeeds, and `pb_decode_svarint` on
-- what it wrote returns the same `int64_t` and takes all of it.
pub pb_decode_svarint-pb_encode_svarint :
    (v bufsize : ℕ)
    → v < 2 ^ 64
    → 10 ≤ bufsize
    → bufsize < 2 ^ 64
    → (out : Ostream (List ℕ)) × (pb_encode_svarint v (pb_ostream_from_buffer bufsize)
        ≡ done tt out)
      × (pb_decode_svarint (pb_istream_from_buffer out.state out.bytes_written)
          ≡ done v (buffer_stream [] 0 none))
unfolding pb_ostream_from_buffer pb_istream_from_buffer
pb_decode_svarint-pb_encode_svarint v bufsize h room small = (
  buffer_ostream (varint (zigzag v)) bufsize (length (varint (zigzag v))) none,
  pb_encode_svarint-eq-varint v (buffer_ostream [] bufsize 0 none) h
      ∙ pb_encode_varint-buffer (zigzag v) [] bufsize 0 none (zigzag-lt v h)
          (omega (arith, length-varint (zigzag v))) small
      ∙ ground arith,
  rw append-nil at (pb_decode_svarint-wire v [] (length (varint (zigzag v))) none h (le_refl _))
      ∙ ground arith,
)
