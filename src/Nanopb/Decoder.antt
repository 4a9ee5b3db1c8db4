-- ===== src/Nanopb/Decoder.antt =====
-- The decoders of single values in pb_decode.c: what `PB_DECODERS` points to, but for submessages.
use study_hours.Common.{ℕ, ◌+◌, ◌-◌, ◌*◌, ◌%◌, ◌^◌, u32, u64, ltb, ◌==◌, if◌then◌else◌, not}
use study_hours.Nanopb.Run.{
  Res, done, failed, stuck, M, ◌>>=◌, ◌>>◌, return, invalid_data_size, integer_too_large,
  bytes_overflow, size_too_large, string_overflow, incorrect_fixed_length_bytes_size,
}
use study_hours.Nanopb.Atype
use study_hours.Nanopb.Encoder.{has_int_size}
use study_hours.Nanopb.Memory.{store, store_zeros, write_byte, load_pointer}
use study_hours.Nanopb.Field.{Field, pb_atype, pb_size_max}
use study_hours.Nanopb.Istream.{pb_decode_varint, pb_decode_varint32}
use study_hours.Nanopb.Reader.{pb_decode_svarint, pb_decode_fixed32, pb_decode_fixed64}
use study_hours.Nanopb.World.{
  Allocator, World, on_stream, modify, peek, error, read_into, allocate_field,
}

-- A cast to a signed number of `n` bytes and back to the bit pattern of an `int64_t`.
abbrev pub sign_extend : ℕ → ℕ → ℕ
sign_extend n v =
    let low = v % 2 ^ (8 * n) in
    if ltb low (2 ^ (8 * n - 1)) then low else low + 2 ^ 64 - 2 ^ (8 * n)

module _ {ℓ κ} {S : Type ℓ} {H : Type κ} where
  -- The value is stored before it is compared.
  abbrev pub store_clamped : ℕ → ℕ → ℕ → ℕ → M (World S H) (Unit {0})
  store_clamped size dest clamped value = do
    modify (store size dest value)
    if clamped == value then return tt else error integer_too_large

  unfoldable pub pb_dec_varint : Field → ℕ → M (World S H) (Unit {0})
  pb_dec_varint field dest = do
    value ← on_stream pb_decode_varint
    let svalue = if field.data_size == 8 then value else sign_extend 4 value
    if has_int_size field.data_size
        then store_clamped field.data_size dest (sign_extend field.data_size svalue) svalue
        else error invalid_data_size

  unfoldable pub pb_dec_uvarint : Field → ℕ → M (World S H) (Unit {0})
  pb_dec_uvarint field dest = do
    value ← on_stream pb_decode_varint
    if has_int_size field.data_size
        then store_clamped field.data_size dest (value % 2 ^ (8 * field.data_size)) value
        else error invalid_data_size

  unfoldable pub pb_dec_svarint : Field → ℕ → M (World S H) (Unit {0})
  pb_dec_svarint field dest = do
    value ← on_stream pb_decode_svarint
    if has_int_size field.data_size
        then store_clamped field.data_size dest (sign_extend field.data_size value) value
        else error invalid_data_size

  unfoldable pub pb_dec_fixed32 : Field → ℕ → M (World S H) (Unit {0})
  pb_dec_fixed32 field dest = do value ← on_stream pb_decode_fixed32; modify (store 4 dest value)

  unfoldable pub pb_dec_fixed64 : Field → ℕ → M (World S H) (Unit {0})
  pb_dec_fixed64 field dest = do value ← on_stream pb_decode_fixed64; modify (store 8 dest value)

  unfoldable pub pb_dec_fixed_length_bytes : Field → ℕ → M (World S H) (Unit {0})
  pb_dec_fixed_length_bytes field dest = do
    size ← on_stream pb_decode_varint32
    if ltb pb_size_max size
        then error bytes_overflow
        else if size == 0
        then modify (store_zeros field.data_size dest)
        else if not (size == field.data_size)
        then error incorrect_fixed_length_bytes_size
        else read_into dest field.data_size

  module _ (alloc : Allocator H) where
    -- The size and the bytes of a `pb_bytes_array_t`.
    abbrev pub fill_bytes : ℕ → ℕ → M (World S H) (Unit {0})
    fill_bytes bdest size = do modify (store 4 bdest size); read_into (bdest + 4) size

    -- `alloc_size` is `size + 4` and, as a `size_t`, never below `size`.
    unfoldable pub pb_dec_bytes : Field → ℕ → M (World S H) (Unit {0})
    pb_dec_bytes field dest = do
      size ← on_stream pb_decode_varint32
      let alloc_size = u64 (size + 4)
      if ltb pb_size_max size
          then error bytes_overflow
          else if ltb alloc_size size
          then error size_too_large
          else if pb_atype field.type == Atype.pointer
          then (allocate_field alloc dest alloc_size 1
              >> (peek (λ m. load_pointer m dest) >>= λ bdest. fill_bytes bdest size))
          else if ltb field.data_size alloc_size
          then error bytes_overflow
          else fill_bytes dest size

    -- The terminator is stored also where the read fails.
    abbrev pub terminated : ℕ → Res (World S H) (Unit {0}) → Res (World S H) (Unit {0})
    terminated a (done _ w) = done tt (record w { mem = write_byte a 0 w.mem })
    terminated a (failed w) = failed (record w { mem = write_byte a 0 w.mem })
    terminated a stuck = stuck

    abbrev pub fill_string : ℕ → ℕ → M (World S H) (Unit {0})
    fill_string dest size w = terminated (dest + size) (read_into dest size w)

    -- `size + 1` is computed in 32 bits.
    unfoldable pub pb_dec_string : Field → ℕ → M (World S H) (Unit {0})
    pb_dec_string field dest = do
      size ← on_stream pb_decode_varint32
      let alloc_size = u32 (size + 1)
      if ltb alloc_size size
          then error size_too_large
          else if pb_atype field.type == Atype.pointer
          then (allocate_field alloc dest alloc_size 1
              >> (peek (λ m. load_pointer m dest) >>= λ target. fill_string target size))
          else if ltb field.data_size alloc_size
          then error string_overflow
          else fill_string dest size
