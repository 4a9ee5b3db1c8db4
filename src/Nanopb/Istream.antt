-- ===== src/Nanopb/Istream.antt =====
-- The input side of pb_decode.c: `pb_istream_t`, `pb_read`, the helpers that read one value from a
-- stream, and the substreams.
pub mod Varint
pub mod Varint32
pub mod Overlong
pub mod Bounds
use study_hours.Common.{
  ℕ, zero, suc, ◌+◌, ◌-◌, ◌*◌, ◌/◌, ◌%◌, ◌^◌, bit_or, u8, u32, u64, low_bits, shr, not64, test_bit,
  ltb, leb, ◌==◌, if◌then◌else◌, Bool, true, false, not, ◌&&◌, ◌||◌, Option, none, some, List, [],
  ◌∷◌, ◌++◌, length, take, drop, get_or,
}
use study_hours.Nanopb.Run.{
  Res, done, failed, stuck, M, ◌>>=◌, ◌>>◌, and_then, return, Message, io_error, end_of_stream,
  varint_overflow, invalid_wire_type, parent_stream_too_short, set_error,
}

-- `pb_istream_t`. `read` is what the callback does with `stream->state` on a count: whether it
-- succeeds, the bytes that it stores, and the new state. `is_buf_read` says that the callback is
-- `buf_read`, which the code tests by comparing pointers.
pub record Istream {ℓ} (S : Type ℓ) : Type ℓ where
  pub is_buf_read : Bool
  pub read : S → ℕ → Bool × List ℕ × S
  pub state : S
  pub bytes_left : ℕ
  pub errmsg : Option Message

-- `buf_read`: the state is the bytes from `stream->state` on.
unfoldable pub buf_read : List ℕ → ℕ → Bool × List ℕ × List ℕ
buf_read source count = (true, take count source, drop count source)

-- A stream over a buffer, at any point of its use.
abbrev pub buffer_stream : List ℕ → ℕ → Option Message → Istream (List ℕ)
buffer_stream source left errmsg = record {
  is_buf_read = true;
  read = buf_read;
  state = source;
  bytes_left = left;
  errmsg = errmsg;
}

unfoldable pub pb_istream_from_buffer : List ℕ → ℕ → Istream (List ℕ)
pb_istream_from_buffer buf bufsize = buffer_stream buf bufsize none

module _ {ℓ} {S : Type ℓ} where
  abbrev pub fail_with {κ} : {A : Type κ} → Message → M (Istream S) A
  fail_with msg s = failed (record s { errmsg = set_error s.errmsg msg })

  abbrev pub after_read : ℕ → Istream S → Bool × List ℕ × S → Res (Istream S) (List ℕ)
  after_read count s (true, bytes, state) =
      done bytes (record s { state = state; bytes_left = s.bytes_left - count })
  after_read count s (false, bytes, state) = fail_with io_error (record s { state = state })

  -- `pb_read` behind the test for a null buffer.
  unfoldable pub read_bytes : ℕ → M (Istream S) (List ℕ)
  read_bytes count s =
      if ltb s.bytes_left count
      then fail_with end_of_stream s
      else after_read count s (s.read s.state count)

  -- The `while (count > 16)` loop that skips through `tmp`, and the last read.
  unfoldable pub skip_chunks : ℕ → ℕ → M (Istream S) (List ℕ)
  skip_chunks zero count = λ s. stuck
  skip_chunks (suc fuel) count =
      let rest = skip_chunks fuel (count - 16) in
      if ltb 16 count then (read_bytes 16 >>= λ _. rest) else read_bytes count

  -- `pb_read(stream, buf, count)` with a buffer, and with a null one. A round of the loop takes 16
  -- off the count, so `count` rounds are enough.
  unfoldable pub pb_read : ℕ → M (Istream S) (List ℕ)
  unfolding read_bytes
  pb_read count = read_bytes count

  unfoldable pub pb_read_null : ℕ → M (Istream S) (List ℕ)
  unfolding skip_chunks
  pb_read_null count s =
      if not s.is_buf_read then skip_chunks (suc count) count s else read_bytes count s

  abbrev pub after_readbyte : Istream S → Bool × List ℕ × S → Res (Istream S) ℕ
  after_readbyte s (true, bytes, state) =
      done (get_or bytes 0 0) (record s { state = state; bytes_left = s.bytes_left - 1 })
  after_readbyte s (false, bytes, state) = fail_with io_error (record s { state = state })

  unfoldable pub pb_readbyte : M (Istream S) ℕ
  pb_readbyte s =
      if s.bytes_left == 0 then fail_with end_of_stream s else after_readbyte s (s.read s.state 1)

-- A stream with the flag that the `eof` pointer of its caller names.
pub record WithEof {ℓ} (S : Type ℓ) : Type ℓ where
  pub stream : Istream S
  pub eof : Bool

module _ {ℓ κ} {S : Type ℓ} {A : Type κ} where
  -- A call that is not given the `eof` pointer.
  abbrev pub keep_eof : Bool → Res (Istream S) A → Res (WithEof S) A
  keep_eof eof (done a s) = done a (record { stream = s; eof = eof })
  keep_eof eof (failed s) = failed (record { stream = s; eof = eof })
  keep_eof eof stuck = stuck

  abbrev pub drop_eof : Res (WithEof S) A → Res (Istream S) A
  drop_eof (done a s) = done a s.stream
  drop_eof (failed s) = failed s.stream
  drop_eof stuck = stuck

module _ {ℓ} {S : Type ℓ} where
  -- One byte of the loop of `pb_decode_varint32_eof`: the new `result`.
  unfoldable pub add_byte32 : ℕ → ℕ → ℕ → M (Istream S) ℕ
  add_byte32 bitpos result byte =
      let sign_extension = if ltb bitpos 63 then 0xFF else 0x01 in
      if leb 32 bitpos
      then (if not (low_bits byte 7 == 0) && (shr result 31 == 0 || not (byte == sign_extension))
          then fail_with varint_overflow
          else return result)
      else return (bit_or result (u32 (low_bits byte 7 * 2 ^ bitpos)))

  -- The test behind the loop: of the byte at bit 28 only four bits fit.
  unfoldable pub check_fifth_byte : ℕ → ℕ → ℕ → M (Istream S) ℕ
  check_fifth_byte bitpos byte result =
      if (bitpos == 35) && not (low_bits (shr byte 4) 3 == 0)
      then fail_with varint_overflow
      else return result

  -- The `do … while (byte & 0x80)` loop. `bitpos` is a `uint_fast8_t` of 8 bits.
  unfoldable pub varint32_loop : ℕ → ℕ → ℕ → M (Istream S) ℕ
  unfolding add_byte32 check_fifth_byte
  varint32_loop zero bitpos result = λ s. stuck
  varint32_loop (suc fuel) bitpos result = do
    byte ← pb_readbyte
    result' ← add_byte32 bitpos result byte
    let rest = varint32_loop fuel (u8 (bitpos + 7)) result'
    if test_bit byte 7 then rest else check_fifth_byte (u8 (bitpos + 7)) byte result'

  -- Behind the first byte. Each round takes a byte, so `bytes_left` and one more are enough.
  unfoldable pub varint32_tail : ℕ → M (Istream S) ℕ
  varint32_tail byte s =
      if test_bit byte 7
      then varint32_loop (suc s.bytes_left) 7 (low_bits byte 7) s
      else return byte s

  abbrev pub varint32_from : Bool → Res (Istream S) ℕ → Res (WithEof S) ℕ
  varint32_from eof (done byte s) = keep_eof eof (varint32_tail byte s)
  varint32_from eof (failed s) =
      failed (record { stream = s; eof = if s.bytes_left == 0 then true else eof })
  varint32_from eof stuck = stuck

  unfoldable pub pb_decode_varint32_eof : M (WithEof S) ℕ
  unfolding varint32_tail
  pb_decode_varint32_eof w = varint32_from w.eof (pb_readbyte w.stream)

  unfoldable pub pb_decode_varint32 : M (Istream S) ℕ
  unfolding pb_decode_varint32_eof
  pb_decode_varint32 s = drop_eof (pb_decode_varint32_eof (record { stream = s; eof = false }))

  -- `bitpos` passes 63 in the eleventh round at the latest.
  unfoldable pub varint_loop : ℕ → ℕ → ℕ → M (Istream S) ℕ
  varint_loop zero bitpos result = λ s. stuck
  varint_loop (suc fuel) bitpos result =
      let next = (do
        byte ← pb_readbyte
        let result' = bit_or result (u64 (low_bits byte 7 * 2 ^ bitpos))
        let rest = varint_loop fuel (u8 (bitpos + 7)) result'
        if test_bit byte 7 then rest else return result') in
      if leb 64 bitpos then fail_with varint_overflow else next

  unfoldable pub pb_decode_varint : M (Istream S) ℕ
  unfolding varint_loop
  pb_decode_varint = varint_loop 11 0 0
