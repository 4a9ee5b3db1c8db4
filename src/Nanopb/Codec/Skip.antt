-- ===== src/Nanopb/Codec/Skip.antt =====
-- pb_decode.c: skipping a value takes exactly the bytes of the value.
use study_hours.Common.{
  ℕ, zero, suc, ◌+◌, ◌-◌, ◌^◌, ◌≤◌, ◌<◌, ◌≡◌, sym, Option, List, [], ◌∷◌, ◌++◌, append_assoc,
  length, length-append, arith,
}
use study_hours.Nanopb.Run.{done, Message}
use study_hours.Nanopb.Wire.{IsVarint, varint_value}
use study_hours.Nanopb.Istream.{buffer_stream, pb_read_null}
use study_hours.Nanopb.Istream.Varint.{test_bit-low, test_bit-high}
use study_hours.Nanopb.Istream.Varint32.{pb_decode_varint32-varint}
use study_hours.Nanopb.Reader.{pb_skip_field, pb_skip_varint, pb_skip_string, skip_varint_loop}
use study_hours.Nanopb.Codec.Fixed.{pb_read-buffer, read_bytes-buffer}

-- The values that the wire format has for a wire type: any varint, eight bytes, as many bytes as a
-- varint before them says, and four bytes.
pub data Value : ℕ → List ℕ → Type 0 where
  a_varint : (bs : List ℕ) → IsVarint bs → Value 0 bs
  eight_bytes : (bs : List ℕ) → length bs ≡ 8 → Value 1 bs
  a_string :
      (size bs : List ℕ)
      → IsVarint size
      → length size ≤ 10
      → varint_value size < 2 ^ 32
      → varint_value size ≡ length bs
      → Value 2 (size ++ bs)
  four_bytes : (bs : List ℕ) → length bs ≡ 4 → Value 5 bs

pub pb_read_null-buffer :
    (bytes rest : List ℕ) (left n : ℕ) (e : Option Message)
    → n ≡ length bytes
    → n ≤ left
    → pb_read_null n (buffer_stream (bytes ++ rest) left e)
      ≡ done bytes (buffer_stream rest (left - n) e)
unfolding pb_read_null
pb_read_null-buffer bytes rest left n e same fits =
    rw same (read_bytes-buffer bytes rest left e (omega arith))

skip_varint_loop-varint :
    (bs rest : List ℕ) (fuel left : ℕ) (e : Option Message)
    → IsVarint bs
    → length bs ≤ fuel
    → length bs ≤ left
    → skip_varint_loop fuel (buffer_stream (bs ++ rest) left e)
      ≡ done tt (buffer_stream rest (left - length bs) e)
unfolding skip_varint_loop
skip_varint_loop-varint [] rest fuel left e h enough fits = absurd h
skip_varint_loop-varint (b ∷ bs) rest zero left e h enough fits = absurd (omega arith)
skip_varint_loop-varint (b ∷ []) rest (suc fuel) left e h enough fits =
    rw (pb_read-buffer (b ∷ []) rest left e fits, test_bit-low b h)
skip_varint_loop-varint (b ∷ c ∷ bs) rest (suc fuel) left e h enough fits =
    rw
      (
        pb_read-buffer (b ∷ []) (c ∷ bs ++ rest) left e (omega arith),
        test_bit-high b h.0 h.1,
        skip_varint_loop-varint (c ∷ bs) rest fuel (left - 1) e h.2 (omega arith) (omega arith),
      )
      (ground arith)

pb_skip_string-string :
    (size bs rest : List ℕ) (left : ℕ) (e : Option Message)
    → IsVarint size
    → length size ≤ 10
    → varint_value size < 2 ^ 32
    → varint_value size ≡ length bs
    → length size + length bs ≤ left
    → pb_skip_string (buffer_stream (size ++ (bs ++ rest)) left e)
      ≡ done tt (buffer_stream rest (left - (length size + length bs)) e)
unfolding pb_skip_string
pb_skip_string-string size bs rest left e h short small same fits =
    rw
      (
        pb_decode_varint32-varint size (bs ++ rest) left e h short (omega arith) small,
        pb_read_null-buffer bs rest (left - length size) (varint_value size) e same (omega arith),
      )
      (ground arith)

-- On a value of its wire type that the stream holds whole, `pb_skip_field` succeeds, and the stream
-- then stands right behind the value.
pub pb_skip_field-Value :
    (wire_type : ℕ) (bs rest : List ℕ) (left : ℕ) (e : Option Message)
    → Value wire_type bs
    → length bs ≤ left
    → pb_skip_field wire_type (buffer_stream (bs ++ rest) left e)
      ≡ done tt (buffer_stream rest (left - length bs) e)
unfolding pb_skip_field pb_skip_varint
pb_skip_field-Value _ _ rest left e (a_varint bs h) fits =
    skip_varint_loop-varint bs rest (suc left) left e h (omega arith) fits
pb_skip_field-Value _ _ rest left e (eight_bytes bs h) fits =
    rw (pb_read_null-buffer bs rest left 8 e (sym h) (omega arith)) (ground arith)
pb_skip_field-Value _ _ rest left e (a_string size bs h short small same) fits =
    let total = length-append size bs in
    rw (append_assoc size bs rest, total)
      (pb_skip_string-string size bs rest left e h short small same (omega arith))
pb_skip_field-Value _ _ rest left e (four_bytes bs h) fits =
    rw (pb_read_null-buffer bs rest left 4 e (sym h) (omega arith)) (ground arith)
