-- ===== src/Nanopb/Encoder.antt =====
-- The encoders of single values in pb_encode.c: what `PB_ENCODERS` points to, the tag of a field,
-- and `pb_encode_submessage`.
use study_hours.Common.{
  ℕ, ◌+◌, ◌-◌, ◌^◌, u64, ltb, leb, ◌==◌, if◌then◌else◌, Bool, ◌&&◌, ◌||◌, none, some, [],
}
use study_hours.Nanopb.Run.{
  Res, done, failed, stuck, M, ◌>>◌, stream_full, invalid_field_type, invalid_data_size,
  bytes_size_exceeded, submsg_size_changed,
}
use study_hours.Nanopb.Ltype
use study_hours.Nanopb.Atype
use study_hours.Nanopb.Memory.{Mem, load, load_bytes, load_size, load_signed, string_length}
use study_hours.Nanopb.Field.{Field, pb_ltype, pb_atype}
use study_hours.Nanopb.Ostream.{
  Ostream, return_error, sizing_stream, pb_write, pb_encode_varint, pb_encode_svarint,
  pb_encode_fixed32, pb_encode_fixed64, pb_encode_tag, pb_encode_string,
}

-- `data_size` chooses the width of the number at `src`.
abbrev pub has_int_size : ℕ → Bool
has_int_size n = (n == 1) || (n == 2) || (n == 4) || (n == 8)

module _ {ℓ} {S : Type ℓ} where
  unfoldable pub pb_encode_tag_for_field : Field → M (Ostream S) (Unit {0})
  pb_encode_tag_for_field field =
      let ltype = pb_ltype field.type in
      if leb ltype Ltype.svarint
      then pb_encode_tag 0 field.tag
      else if ltype == Ltype.fixed32
      then pb_encode_tag 5 field.tag
      else if ltype == Ltype.fixed64
      then pb_encode_tag 1 field.tag
      else if leb ltype Ltype.submessage || (ltype == Ltype.fixed_length_bytes)
      then pb_encode_tag 2 field.tag
      else return_error invalid_field_type

module _ {ℓ} {S : Type ℓ} (mem : Mem) where
  unfoldable pub pb_enc_varint : Field → ℕ → M (Ostream S) (Unit {0})
  pb_enc_varint field src =
      if has_int_size field.data_size
      then pb_encode_varint (load_signed field.data_size mem src)
      else return_error invalid_data_size

  unfoldable pub pb_enc_uvarint : Field → ℕ → M (Ostream S) (Unit {0})
  pb_enc_uvarint field src =
      if has_int_size field.data_size
      then pb_encode_varint (load field.data_size mem src)
      else return_error invalid_data_size

  unfoldable pub pb_enc_svarint : Field → ℕ → M (Ostream S) (Unit {0})
  pb_enc_svarint field src =
      if has_int_size field.data_size
      then pb_encode_svarint (load_signed field.data_size mem src)
      else return_error invalid_data_size

  unfoldable pub pb_enc_fixed32 : Field → ℕ → M (Ostream S) (Unit {0})
  pb_enc_fixed32 field src = pb_encode_fixed32 (load 4 mem src)

  unfoldable pub pb_enc_fixed64 : Field → ℕ → M (Ostream S) (Unit {0})
  pb_enc_fixed64 field src = pb_encode_fixed64 (load 8 mem src)

  -- A `pb_bytes_array_t` is its size in four bytes, and the bytes.
  unfoldable pub pb_enc_bytes : Field → ℕ → M (Ostream S) (Unit {0})
  pb_enc_bytes field src =
      let size = load_size mem src in
      if src == 0
      then pb_encode_string [] 0
      else if (pb_atype field.type == Atype.static) && ltb field.data_size (size + 4)
      then return_error bytes_size_exceeded
      else pb_encode_string (load_bytes size mem (src + 4)) size

  unfoldable pub pb_enc_string : Field → ℕ → M (Ostream S) (Unit {0})
  pb_enc_string field src =
      let max_size = if pb_atype field.type == Atype.pointer then 2 ^ 64 - 1 else field.data_size in
      let size = if src == 0 then 0 else string_length max_size mem src in
      pb_encode_string (load_bytes size mem src) size

  unfoldable pub pb_enc_fixed_length_bytes : Field → ℕ → M (Ostream S) (Unit {0})
  pb_enc_fixed_length_bytes field src =
      pb_encode_string (load_bytes field.data_size mem src) field.data_size

-- `pb_encode_submessage`, over `encode`, the call of `pb_encode` on the submessage.
module _ {ℓ} {S : Type ℓ} (encode : M (Ostream S) (Unit {0})) where
  -- The substream that checks the size on the second pass.
  abbrev pub limited : ℕ → Ostream S → Ostream S
  limited size s = record s { max_size = size; bytes_written = 0; errmsg = none }

  -- What both ends of the second pass do to the stream.
  abbrev pub merge_substream : Ostream S → Ostream S → Ostream S
  merge_substream s sub = record s {
    state = sub.state;
    bytes_written = u64 (s.bytes_written + sub.bytes_written);
    errmsg = sub.errmsg;
  }

  abbrev pub finish_submessage :
      ℕ → Ostream S → Res (Ostream S) (Unit {0}) → Res (Ostream S) (Unit {0})
  finish_submessage size s (done _ sub) =
      if sub.bytes_written == size
      then done tt (merge_substream s sub)
      else return_error submsg_size_changed (merge_substream s sub)
  finish_submessage size s (failed sub) =
      if sub.bytes_written == size
      then failed (merge_substream s sub)
      else return_error submsg_size_changed (merge_substream s sub)
  finish_submessage size s stuck = stuck

  unfoldable pub write_submessage : ℕ → M (Ostream S) (Unit {0})
  write_submessage size s = elim s.callback [
    | none ↦ pb_write [] size s
    | some f ↦
        if ltb s.max_size (u64 (s.bytes_written + size))
        then return_error stream_full s
        else finish_submessage size s (encode (limited size s))
  ]

  abbrev pub after_sizing : Res (Ostream S) (Unit {0}) → M (Ostream S) (Unit {0})
  after_sizing (done _ sub) s =
      (pb_encode_varint sub.bytes_written >> write_submessage sub.bytes_written) s
  after_sizing (failed sub) s = failed (record s { errmsg = sub.errmsg })
  after_sizing stuck s = stuck

  unfoldable pub pb_encode_submessage : M (Ostream S) (Unit {0})
  unfolding write_submessage
  pb_encode_submessage s = after_sizing (encode (sizing_stream s.state)) s
