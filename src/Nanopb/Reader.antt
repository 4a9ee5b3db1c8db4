-- ===== src/Nanopb/Reader.antt =====
-- pb_decode.c above the varints: tags, skipping, raw values, substreams, and the readers of a
-- signed varint and of fixed width numbers.
use study_hours.Common.{
  ℕ, zero, suc, ◌-◌, ◌*◌, ◌%◌, ◌^◌, bit_or, low_bits, shr, not64, test_bit, ltb, ◌==◌,
  if◌then◌else◌, true, false, List, [], ◌∷◌, length, get_or,
}
use study_hours.Nanopb.Run.{
  Res, done, failed, stuck, M, ◌>>=◌, return, invalid_wire_type, parent_stream_too_short,
}
use study_hours.Nanopb.Istream.{
  Istream, WithEof, fail_with, pb_read, pb_read_null, pb_decode_varint, pb_decode_varint32,
  pb_decode_varint32_eof,
}

-- `pb_wire_type_t`. Any other number comes from a malformed tag.
abbrev pub wt_varint : ℕ
wt_varint = 0

abbrev pub wt_64bit : ℕ
wt_64bit = 1

abbrev pub wt_string : ℕ
wt_string = 2

abbrev pub wt_32bit : ℕ
wt_32bit = 5

-- What `pb_decode_tag` stores through its pointers.
pub record Tag : Type 0 where
  pub wire_type : ℕ
  pub number : ℕ

module _ {ℓ} {S : Type ℓ} where
  unfoldable pub skip_varint_loop : ℕ → M (Istream S) (Unit {0})
  skip_varint_loop zero = λ s. stuck
  skip_varint_loop (suc fuel) = do
    bytes ← pb_read 1
    let rest = skip_varint_loop fuel
    if test_bit (get_or bytes 0 0) 7 then rest else return tt

  -- Each round takes a byte, so `bytes_left` rounds and the failing one are enough.
  unfoldable pub pb_skip_varint : M (Istream S) (Unit {0})
  unfolding skip_varint_loop
  pb_skip_varint s = skip_varint_loop (suc s.bytes_left) s

  unfoldable pub pb_skip_string : M (Istream S) (Unit {0})
  pb_skip_string = do length ← pb_decode_varint32; _ ← pb_read_null length; return tt

  -- On a value of 0 the flag is set and the call fails: a message may end in a zero byte.
  abbrev pub split_tag : ℕ → M (WithEof S) Tag
  split_tag temp w =
      if temp == 0
      then failed (record w { eof = true })
      else done (record { wire_type = low_bits temp 3; number = shr temp 3 }) w

  unfoldable pub pb_decode_tag : Istream S → Res (WithEof S) Tag
  pb_decode_tag s = (pb_decode_varint32_eof >>= split_tag) (record { stream = s; eof = false })

  unfoldable pub pb_skip_field : ℕ → M (Istream S) (Unit {0})
  pb_skip_field wire_type =
      if wire_type == wt_varint
      then pb_skip_varint
      else if wire_type == wt_64bit
      then (pb_read_null 8 >>= λ _. return tt)
      else if wire_type == wt_string
      then pb_skip_string
      else if wire_type == wt_32bit
      then (pb_read_null 4 >>= λ _. return tt)
      else fail_with invalid_wire_type

  -- The `PB_WT_VARINT` case of `read_raw_value`, with room for `room` more bytes.
  raw_varint_loop : ℕ → M (Istream S) (List ℕ)
  raw_varint_loop zero = λ s. failed s
  raw_varint_loop (suc room) = do
    bytes ← pb_read 1
    let rest = (do more ← raw_varint_loop room; return (get_or bytes 0 0 ∷ more))
    if test_bit (get_or bytes 0 0) 7 then rest else return (get_or bytes 0 0 ∷ [])

  -- The bytes stored at `buf`, as many as `*size` says afterwards.
  unfoldable pub read_raw_value : ℕ → ℕ → M (Istream S) (List ℕ)
  unfolding raw_varint_loop
  read_raw_value wire_type max_size =
      if wire_type == wt_varint
      then raw_varint_loop max_size
      else if wire_type == wt_64bit
      then pb_read 8
      else if wire_type == wt_32bit
      then pb_read 4
      else fail_with invalid_wire_type

  abbrev pub cut_substream : ℕ → M (Istream S) (Istream S)
  cut_substream size s =
      if ltb s.bytes_left size
      then fail_with parent_stream_too_short s
      else done (record s { bytes_left = size }) (record s { bytes_left = s.bytes_left - size })

  unfoldable pub pb_make_string_substream : M (Istream S) (Istream S)
  pb_make_string_substream = pb_decode_varint32 >>= cut_substream

  abbrev pub copy_back : Istream S → Istream S → Istream S
  copy_back substream s = record s { state = substream.state; errmsg = substream.errmsg }

  abbrev pub close_after : Res (Istream S) (List ℕ) → M (Istream S) (Unit {0})
  close_after (done _ substream) s = done tt (copy_back substream s)
  close_after (failed substream) s = failed s
  close_after stuck s = stuck

  unfoldable pub pb_close_string_substream : Istream S → M (Istream S) (Unit {0})
  pb_close_string_substream substream s =
      if substream.bytes_left == 0
      then done tt (copy_back substream s)
      else close_after (pb_read_null substream.bytes_left substream) s

  -- The bit pattern of the `int64_t`.
  unfoldable pub pb_decode_svarint : M (Istream S) ℕ
  pb_decode_svarint = do
    value ← pb_decode_varint
    return (if value % 2 == 1 then not64 (shr value 1) else shr value 1)

  unfoldable pub pb_decode_fixed32 : M (Istream S) ℕ
  pb_decode_fixed32 = do
    bytes ← pb_read 4
    return (
        bit_or
          (bit_or (bit_or (get_or bytes 0 0) (get_or bytes 1 0 * 2 ^ 8))
            (get_or bytes 2 0 * 2 ^ 16))
          (get_or bytes 3 0 * 2 ^ 24))

  unfoldable pub pb_decode_fixed64 : M (Istream S) ℕ
  pb_decode_fixed64 = do
    bytes ← pb_read 8
    return (
        bit_or
          (bit_or
            (bit_or
              (bit_or
                (bit_or
                  (bit_or (bit_or (get_or bytes 0 0) (get_or bytes 1 0 * 2 ^ 8))
                    (get_or bytes 2 0 * 2 ^ 16))
                  (get_or bytes 3 0 * 2 ^ 24))
                (get_or bytes 4 0 * 2 ^ 32))
              (get_or bytes 5 0 * 2 ^ 40))
            (get_or bytes 6 0 * 2 ^ 48))
          (get_or bytes 7 0 * 2 ^ 56))
