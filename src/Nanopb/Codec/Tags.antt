-- ===== src/Nanopb/Codec/Tags.antt =====
-- Tags: pb_encode_tag of pb_encode.c against pb_decode_tag.
use study_hours.Common.{
  ℕ, ◌+◌, ◌-◌, ◌*◌, ◌^◌, ◌≤◌, ◌<◌, ◌≡◌, refl, ◌∙◌, none, List, [], length, append-nil, arith, false,
}
use study_hours.Nanopb.Run.{done}
use study_hours.Nanopb.Wire.{varint, length-varint}
use study_hours.Nanopb.Ostream.{Ostream, pb_ostream_from_buffer, pb_encode_tag}
use study_hours.Nanopb.Istream.{buffer_stream, pb_istream_from_buffer}
use study_hours.Nanopb.Reader.{pb_decode_tag}
use study_hours.Nanopb.Codec.Varint.{buffer_ostream, pb_encode_varint-buffer}
use study_hours.Nanopb.Codec.Fixed.{pb_encode_tag-eq-varint, pb_decode_tag-wire}

-- `pb_encode_tag` into a buffer with room for ten bytes succeeds, for the field numbers of the wire
-- format, and `pb_decode_tag` on what it wrote returns the same wire type and field number, takes
-- all of it and does not set `eof`.
pub pb_decode_tag-pb_encode_tag :
    (wire_type number bufsize : ℕ)
    → wire_type < 8
    → 0 < number
    → number < 2 ^ 29
    → 10 ≤ bufsize
    → bufsize < 2 ^ 64
    → (out : Ostream (List ℕ)) × (pb_encode_tag wire_type number (pb_ostream_from_buffer bufsize)
        ≡ done tt out)
      × (pb_decode_tag (pb_istream_from_buffer out.state out.bytes_written)
          ≡ done
              (record { wire_type = wire_type; number = number })
              (record { stream = buffer_stream [] 0 none; eof = false }))
unfolding pb_ostream_from_buffer pb_istream_from_buffer
pb_decode_tag-pb_encode_tag wire_type number bufsize hw pos hn room small =
    let t : ℕ = number * 8 + wire_type in
    let short = (length-varint t).1 in
    let left : length (varint t) - length (varint t) ≡ 0 = omega arith in
    let all : 0 + length (varint t) ≡ length (varint t) = omega arith in
    (
      buffer_ostream (varint t) bufsize (length (varint t)) none,
      pb_encode_tag-eq-varint wire_type number (buffer_ostream [] bufsize 0 none) hw hn
          ∙ (pb_encode_varint-buffer t [] bufsize 0 none (omega arith) (omega arith) small
              ∙ rw all refl),
      rw left at (
          rw (append-nil (varint t)) at (
            pb_decode_tag-wire wire_type number [] (length (varint t)) none hw pos hn
              (omega arith))),
    )
