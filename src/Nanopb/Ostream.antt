-- ===== src/Nanopb/Ostream.antt =====
-- The output side of pb_encode.c: `pb_ostream_t`, `pb_write`, and the helpers that write one
-- value to a stream.
pub mod Varint
use study_hours.Common.{
  ℕ, zero, suc, ◌+◌, ◌*◌, ◌^◌, bit_or, u8, u64, low_bits, shr, not64, ltb, leb, ◌==◌, if◌then◌else◌,
  Bool, true, false, Option, none, some, List, [], ◌∷◌, ◌++◌, length, take,
}
use study_hours.Nanopb.Run.{done, failed, stuck, M, ◌>>◌, Message, stream_full, io_error, set_error}

-- `pb_ostream_t`. `callback` is what the function pointer does with `stream->state` and the
-- `count` bytes at `buf`; `none` is the null pointer, a stream that only counts.
pub record Ostream {ℓ} (S : Type ℓ) : Type ℓ where
  pub callback : Option (S → List ℕ → Bool × S)
  pub state : S
  pub max_size : ℕ
  pub bytes_written : ℕ
  pub errmsg : Option Message

-- `buf_write`: the state is the bytes from the start of the buffer up to `stream->state`.
unfoldable pub buf_write : List ℕ → List ℕ → Bool × List ℕ
buf_write dest buf = (true, dest ++ buf)

unfoldable pub pb_ostream_from_buffer : ℕ → Ostream (List ℕ)
pb_ostream_from_buffer bufsize = record {
  callback = some buf_write;
  state = [];
  max_size = bufsize;
  bytes_written = 0;
  errmsg = none;
}

module _ {ℓ} {S : Type ℓ} where
  -- `PB_OSTREAM_SIZING`. Its state pointer is null and is never followed.
  abbrev pub sizing_stream : S → Ostream S
  sizing_stream null = record {
    callback = none;
    state = null;
    max_size = 0;
    bytes_written = 0;
    errmsg = none;
  }

  -- `PB_RETURN_ERROR` on an output stream.
  abbrev pub return_error {κ} : {A : Type κ} → Message → M (Ostream S) A
  return_error msg s = failed (record s { errmsg = set_error s.errmsg msg })

  -- `stream->bytes_written += count`, in a `size_t`.
  abbrev pub add_written : ℕ → Ostream S → Ostream S
  add_written count s = record s { bytes_written = u64 (s.bytes_written + count) }

  -- What follows the call of the callback in `pb_write`.
  abbrev pub after_callback : Bool × S → ℕ → M (Ostream S) (Unit {0})
  after_callback (true, state) count s = done tt (add_written count (record s { state = state }))
  after_callback (false, state) count s = return_error io_error (record s { state = state })

  unfoldable pub pb_write : List ℕ → ℕ → M (Ostream S) (Unit {0})
  pb_write buf count s = elim s.callback [
    | none ↦ done tt (add_written count s)
    | some f ↦
        if ltb s.max_size (u64 (s.bytes_written + count))
        then return_error stream_full s
        else after_callback (f s.state (take count buf)) count s
  ]

-- The `while (value)` loop of `pb_encode_varint`, with `room` bytes of `buffer` left. `none` would
-- be a write behind its end.
unfoldable pub fill_buffer : ℕ → ℕ → Option (List ℕ)
fill_buffer zero value = if value == 0 then some [] else none
fill_buffer (suc room) value =
    let rest = fill_buffer room (shr value 7) in
    if value == 0 then some [] else elim rest [
      | none ↦ none
      | some buffer ↦ some (u8 (bit_or (low_bits value 7) 0x80) ∷ buffer)
    ]

-- `buffer[i-1] &= 0x7F`
unfoldable pub unset_last : List ℕ → List ℕ
unset_last [] = []
unset_last (b ∷ []) = low_bits b 7 ∷ []
unset_last (b ∷ c ∷ bs) = b ∷ unset_last (c ∷ bs)

module _ {ℓ} {S : Type ℓ} where
  abbrev pub write_buffer : Option (List ℕ) → M (Ostream S) (Unit {0})
  write_buffer none s = stuck
  write_buffer (some buffer) s = pb_write (unset_last buffer) (length buffer) s

  unfoldable pub pb_encode_varint : ℕ → M (Ostream S) (Unit {0})
  pb_encode_varint value =
      if leb value 0x7F then pb_write (u8 value ∷ []) 1 else write_buffer (fill_buffer 10 value)

  -- The value is the bit pattern of the `int64_t`: it is negative from 2 ^ 63 on.
  unfoldable pub pb_encode_svarint : ℕ → M (Ostream S) (Unit {0})
  pb_encode_svarint value =
      let shifted = u64 (value * 2) in
      pb_encode_varint (if leb (2 ^ 63) value then not64 shifted else shifted)

  unfoldable pub pb_encode_fixed32 : ℕ → M (Ostream S) (Unit {0})
  pb_encode_fixed32 val =
      pb_write
        (low_bits val 8
          ∷ low_bits (shr val 8) 8
          ∷ low_bits (shr val 16) 8
          ∷ low_bits (shr val 24) 8
          ∷ [])
        4

  unfoldable pub pb_encode_fixed64 : ℕ → M (Ostream S) (Unit {0})
  pb_encode_fixed64 val =
      pb_write
        (low_bits val 8
          ∷ low_bits (shr val 8) 8
          ∷ low_bits (shr val 16) 8
          ∷ low_bits (shr val 24) 8
          ∷ low_bits (shr val 32) 8
          ∷ low_bits (shr val 40) 8
          ∷ low_bits (shr val 48) 8
          ∷ low_bits (shr val 56) 8
          ∷ [])
        8

  unfoldable pub pb_encode_tag : ℕ → ℕ → M (Ostream S) (Unit {0})
  pb_encode_tag wiretype field_number =
      pb_encode_varint (bit_or (u64 (field_number * 2 ^ 3)) wiretype)

  unfoldable pub pb_encode_string : List ℕ → ℕ → M (Ostream S) (Unit {0})
  pb_encode_string buffer size = do pb_encode_varint size; pb_write buffer size
