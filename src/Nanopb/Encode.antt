-- ===== src/Nanopb/Encode.antt =====
-- pb_encode.c above the single values: arrays, fields, extensions and whole messages. The memory
-- is read only, and `fuel` bounds how deep messages nest and how long a list of extensions is.
use study_hours.Common.{
  ℕ, zero, suc, ◌+◌, ◌*◌, u64, ltb, leb, ◌==◌, if◌then◌else◌, not, ◌&&◌, ◌||◌, Option, none, some,
  List, [],
}
use study_hours.Nanopb.Run.{
  Res, done, failed, stuck, M, ◌>>=◌, ◌>>◌, return, invalid_field_descriptor,
  array_max_size_exceeded,
}
use study_hours.Nanopb.Ltype
use study_hours.Nanopb.Atype
use study_hours.Nanopb.Memory.{Mem, load_pointer}
use study_hours.Nanopb.Field.{Field, null, submsg, default_value, pb_ltype, pb_atype}
use study_hours.Nanopb.Ostream.{
  Ostream, return_error, sizing_stream, pb_write, pb_encode_varint, pb_encode_tag,
}
use study_hours.Nanopb.Encoder.{
  pb_encode_tag_for_field, pb_enc_varint, pb_enc_uvarint, pb_enc_svarint, pb_enc_fixed32,
  pb_enc_fixed64, pb_enc_bytes, pb_enc_string, pb_enc_fixed_length_bytes, pb_encode_submessage,
}

-- What the encoder is given besides the message: the descriptor arrays, the user's functions, and
-- the `pb_extension_type_t` at an address, by its `encode` member and its `arg`.
pub record EncodeEnv {ℓ} (S : Type ℓ) : Type ℓ where
  pub descriptors : ℕ → List Field
  pub callback : ℕ → Field → ℕ → M (Ostream S) (Unit {0})
  pub extension_encode : ℕ → Option (ℕ → M (Ostream S) (Unit {0}))
  pub extension_field : ℕ → Field

module _ {ℓ} {S : Type ℓ} (env : EncodeEnv S) (mem : Mem) where
  -- `encode` is `pb_encode` on a submessage.
  module _ (encode : List Field → ℕ → M (Ostream S) (Unit {0})) where
    unfoldable pub pb_enc_submessage : Field → ℕ → M (Ostream S) (Unit {0})
    pb_enc_submessage field src = elim field.ptr [
      | submsg k ↦ pb_encode_submessage (encode (env.descriptors k) src)
      | null ↦ return_error invalid_field_descriptor
      | default_value _ ↦ λ s. stuck
    ]

    -- `PB_ENCODERS[ltype]`. A call through the null entry or behind the table has no meaning.
    unfoldable pub encoder : Field → ℕ → M (Ostream S) (Unit {0})
    encoder field src =
        let ltype = pb_ltype field.type in
        if ltype == Ltype.varint
        then pb_enc_varint mem field src
        else if ltype == Ltype.uvarint
        then pb_enc_uvarint mem field src
        else if ltype == Ltype.svarint
        then pb_enc_svarint mem field src
        else if ltype == Ltype.fixed32
        then pb_enc_fixed32 mem field src
        else if ltype == Ltype.fixed64
        then pb_enc_fixed64 mem field src
        else if ltype == Ltype.bytes
        then pb_enc_bytes mem field src
        else if ltype == Ltype.string
        then pb_enc_string mem field src
        else if ltype == Ltype.submessage
        then pb_enc_submessage field src
        else if ltype == Ltype.fixed_length_bytes
        then pb_enc_fixed_length_bytes mem field src
        else (λ s. stuck)

    -- The loops of `encode_array` over the items, packed and with a tag each.
    unfoldable pub encode_items : Field → ℕ → ℕ → M (Ostream S) (Unit {0})
    encode_items field zero p = return tt
    encode_items field (suc count) p = do
      encoder field p
      encode_items field count (p + field.data_size)

    abbrev pub item_address : Field → ℕ → ℕ
    item_address field p =
        if (pb_atype field.type == Atype.pointer)
          && ((pb_ltype field.type == Ltype.string) || (pb_ltype field.type == Ltype.bytes))
        then load_pointer mem p
        else p

    unfoldable pub encode_tagged_items : Field → ℕ → ℕ → M (Ostream S) (Unit {0})
    encode_tagged_items field zero p = return tt
    encode_tagged_items field (suc count) p = do
      pb_encode_tag_for_field field
      encoder field (item_address field p)
      encode_tagged_items field count (p + field.data_size)

    abbrev pub size_from : Res (Ostream S) (Unit {0}) → M (Ostream S) ℕ
    size_from (done _ sizes) s = done sizes.bytes_written s
    size_from (failed sizes) s = failed s
    size_from stuck s = stuck

    -- The total size of a packed array.
    unfoldable pub packed_size : Field → ℕ → ℕ → M (Ostream S) ℕ
    packed_size field count p_data s =
        if pb_ltype field.type == Ltype.fixed32
        then done (u64 (4 * count)) s
        else if pb_ltype field.type == Ltype.fixed64
        then done (u64 (8 * count)) s
        else size_from (encode_items field count p_data (sizing_stream s.state)) s

    abbrev pub write_items : Field → ℕ → ℕ → ℕ → M (Ostream S) (Unit {0})
    write_items field count p_data size s = elim s.callback [
      | none ↦ pb_write [] size s
      | some _ ↦ encode_items field count p_data s
    ]

    unfoldable pub encode_packed : Field → ℕ → ℕ → M (Ostream S) (Unit {0})
    unfolding packed_size
    encode_packed field p_data count = do
      pb_encode_tag 2 field.tag
      size ← packed_size field count p_data
      pb_encode_varint size
      write_items field count p_data size

    unfoldable pub encode_array : Field → ℕ → ℕ → M (Ostream S) (Unit {0})
    unfolding encode_packed encode_items encode_tagged_items
    encode_array field p_data count =
        if count == 0
        then return tt
        else if not (pb_atype field.type == Atype.pointer) && ltb field.array_size count
        then return_error array_max_size_exceeded
        else if leb (pb_ltype field.type) Ltype.last_packable
        then encode_packed field p_data count
        else encode_tagged_items field count p_data
