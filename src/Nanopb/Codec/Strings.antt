-- ===== src/Nanopb/Codec/Strings.antt =====
-- pb_encode_string of pb_encode.c against the substreams of pb_decode.c.
use study_hours.Common.{
  ℕ, suc, ◌+◌, ◌-◌, ◌^◌, ◌≤◌, ◌<◌, ◌≡◌, refl, ltb-false, ◌==◌, false, Option, none, List, [], ◌∷◌,
  ◌++◌, append-nil, length, arith,
}
use study_hours.Nanopb.Run.{done, Message}
use study_hours.Nanopb.Wire.{
  IsVarint, varint_value, varint, varint-IsVarint, varint_value-varint, length-varint,
}
use study_hours.Nanopb.Ostream.{Ostream, pb_ostream_from_buffer, pb_encode_string}
use study_hours.Nanopb.Istream.{Istream, buffer_stream, pb_istream_from_buffer}
use study_hours.Nanopb.Istream.Varint32.{pb_decode_varint32-varint}
use study_hours.Nanopb.Reader.{pb_make_string_substream, pb_close_string_substream}
use study_hours.Nanopb.Codec.Varint.{buffer_ostream, pb_write-buffer, pb_encode_varint-buffer}
use study_hours.Nanopb.Codec.Skip.{pb_read_null-buffer}

pub pb_make_string_substream-varint :
    (size bs rest : List ℕ) (left : ℕ) (e : Option Message)
    → IsVarint size
    → length size ≤ 10
    → varint_value size < 2 ^ 32
    → varint_value size ≡ length bs
    → length size + length bs ≤ left
    → pb_make_string_substream (buffer_stream (size ++ (bs ++ rest)) left e)
      ≡ done
          (buffer_stream (bs ++ rest) (length bs) e)
          (buffer_stream (bs ++ rest) (left - length size - length bs) e)
unfolding pb_make_string_substream
pb_make_string_substream-varint size bs rest left e h short small same fits = rw (
  pb_decode_varint32-varint size (bs ++ rest) left e h short (omega arith) small,
  same,
  ltb-false (left - length size) (length bs) (omega arith),
)

-- What is left of the substream is skipped.
pub pb_close_string_substream-buffer :
    (unread rest source : List ℕ) (left : ℕ) (e e' : Option Message)
    → pb_close_string_substream
        (buffer_stream (unread ++ rest) (length unread) e')
        (buffer_stream source left e)
      ≡ done tt (buffer_stream rest left e')
unfolding pb_close_string_substream
pb_close_string_substream-buffer [] rest source left e e' = refl
pb_close_string_substream-buffer (b ∷ unread) rest source left e e' =
    let not_empty : (suc (length unread) == 0) ≡ false = ground arith in
    rw (
      not_empty,
      pb_read_null-buffer (b ∷ unread) rest (length (b ∷ unread)) (length (b ∷ unread)) e' refl
          (omega arith),
    )

-- Behind a length below 2 ^ 32 that is written as any varint of at most ten bytes, the substream
-- holds exactly so many bytes, and however many of them were read when it is closed, the parent then stands
-- right behind them, with the substream's error message.
pub pb_close_string_substream-pb_make_string_substream :
    (size read unread rest : List ℕ) (left : ℕ) (e e' : Option Message)
    → IsVarint size
    → length size ≤ 10
    → varint_value size < 2 ^ 32
    → varint_value size ≡ length (read ++ unread)
    → length size + length (read ++ unread) ≤ left
    → (parent : Istream (List ℕ)) × (pb_make_string_substream
          (buffer_stream (size ++ ((read ++ unread) ++ rest)) left e)
        ≡ done (buffer_stream ((read ++ unread) ++ rest) (length (read ++ unread)) e) parent)
      × (pb_close_string_substream (buffer_stream (unread ++ rest) (length unread) e') parent
          ≡ done tt (buffer_stream rest (left - length size - length (read ++ unread)) e'))
pb_close_string_substream-pb_make_string_substream size read unread rest left e e' h short small
      same fits =
    (
      buffer_stream ((read ++ unread) ++ rest) (left - length size - length (read ++ unread)) e,
      pb_make_string_substream-varint size (read ++ unread) rest left e h short small same fits,
      pb_close_string_substream-buffer unread rest ((read ++ unread) ++ rest)
          (left - length size - length (read ++ unread)) e e',
    )

-- `pb_encode_string` of a string of fewer than 2 ^ 32 bytes into a buffer with ten bytes more than
-- it takes succeeds, and the substream that `pb_make_string_substream` finds there holds exactly the string, with nothing
-- behind it.
pub pb_make_string_substream-pb_encode_string :
    (bs : List ℕ) (bufsize : ℕ)
    → length bs < 2 ^ 32
    → 10 + length bs ≤ bufsize
    → bufsize < 2 ^ 64
    → (out : Ostream (List ℕ)) × (pb_encode_string bs (length bs) (pb_ostream_from_buffer bufsize)
        ≡ done tt out)
      × (pb_make_string_substream (pb_istream_from_buffer out.state out.bytes_written)
          ≡ done (buffer_stream bs (length bs) none) (buffer_stream bs 0 none))
unfolding pb_ostream_from_buffer pb_istream_from_buffer pb_encode_string
pb_make_string_substream-pb_encode_string bs bufsize small room fits =
    let size : List ℕ = varint (length bs) in
    let short = (length-varint (length bs)).1 in
    let value = varint_value-varint (length bs) (omega arith) in
    let left : 0 + length size + length bs - length size - length bs ≡ 0 = omega arith in
    (
      buffer_ostream (size ++ bs) bufsize (0 + length size + length bs) none,
      rw (
        pb_encode_varint-buffer (length bs) [] bufsize 0 none (omega arith) (omega arith) fits,
        pb_write-buffer bs size bufsize (0 + length size) none (omega arith) fits,
      ),
      rw left at (
          rw (append-nil bs) at (
            pb_make_string_substream-varint size bs [] (0 + length size + length bs) none
              (varint-IsVarint (length bs) (omega arith)) short (rw value small) value
              (omega arith))),
    )
