-- ===== src/Nanopb/CodecExamples.antt =====
-- The theorems of Codec, Search, Allocation and Istream at concrete inputs.
use study_hours.Common.{
  inl, all_below, ℕ, suc, ◌*◌, ◌≡◌, refl, arith, ◌⊎◌, none, some, List, [], ◌∷◌, ◌++◌, leb, ◌==◌,
  ◌||◌, if◌then◌else◌, true, false,
}
use study_hours.Nanopb.Run.{done, invalid_size, size_too_large}
use study_hours.Nanopb.Memory.{Mem, load, load_pointer, write_byte}
use study_hours.Nanopb.Field.{
  Field, FieldPtr, FieldIter, here, begin_at, last_field, pb_field_iter_find, has_tag,
}
use study_hours.Nanopb.Wire.{IsVarint, varint_value}
use study_hours.Nanopb.Ostream.{
  Ostream, pb_ostream_from_buffer, pb_encode_svarint, pb_encode_fixed32, pb_encode_fixed64,
  pb_encode_tag, pb_encode_string,
}
use study_hours.Nanopb.Istream.{
  Istream, buffer_stream, pb_istream_from_buffer, pb_decode_varint32, pb_decode_varint,
}
use study_hours.Nanopb.Istream.Varint.{pb_decode_varint-varint}
use study_hours.Nanopb.Istream.Varint32.{pb_decode_varint32-varint}
use study_hours.Nanopb.Istream.Overlong.{padding, pb_decode_varint32_wraps}
use study_hours.Nanopb.Reader.{
  pb_decode_svarint, pb_decode_fixed32, pb_decode_fixed64, pb_decode_tag, pb_skip_field,
  pb_make_string_substream, pb_close_string_substream,
}
use study_hours.Nanopb.Codec.Varint.{pb_decode_svarint-pb_encode_svarint}
use study_hours.Nanopb.Codec.Fixed.{pb_decode_fixed-pb_encode_fixed}
use study_hours.Nanopb.Codec.Tags.{pb_decode_tag-pb_encode_tag}
use study_hours.Nanopb.Codec.Skip.{Value, a_string, pb_skip_field-Value}
use study_hours.Nanopb.Codec.Strings.{
  pb_close_string_substream-pb_make_string_substream, pb_make_string_substream-pb_encode_string,
}
use study_hours.Nanopb.Codec.Integers.{
  IsMem, pb_dec_uvarint-pb_enc_uvarint, pb_dec_varint-pb_enc_varint, pb_dec_svarint-pb_enc_svarint,
}
use study_hours.Nanopb.Encoder.{pb_enc_uvarint, pb_enc_varint, pb_enc_svarint}
use study_hours.Nanopb.Decoder.{pb_dec_uvarint, pb_dec_varint, pb_dec_svarint}
use study_hours.Nanopb.World.{Allocator, World, allocate_field, error, keep_pointer}
use study_hours.Nanopb.Allocation.{allocate_field_lem}
use study_hours.Nanopb.Istream.Bounds.{Within, WithinEof}
use study_hours.Nanopb.ReaderBounds.{pb_decode_tag_bounds}
use study_hours.Nanopb.DecodeMessage.{required_seen}
use study_hours.Nanopb.Required.{elem, mark_all, required_seen-mark_all}
use study_hours.Nanopb.Release.{pb_release_single_field}
use study_hours.Nanopb.Released.{owned, freed_all, IsReleased, pb_release_single_field_lem}
use study_hours.Nanopb.Search.{any, pb_field_iter_find_lem}

-- -2 as a `uint64_t`.
pb_decode_svarint-pb_encode_svarint_example :
    (out : Ostream (List ℕ)) × (pb_encode_svarint 18446744073709551614 (pb_ostream_from_buffer 16)
      ≡ done tt out)
    × (pb_decode_svarint (pb_istream_from_buffer out.state out.bytes_written)
        ≡ done 18446744073709551614 (buffer_stream [] 0 none))
pb_decode_svarint-pb_encode_svarint_example =
    pb_decode_svarint-pb_encode_svarint 18446744073709551614 16 (omega arith) (omega arith)
      (omega arith)

pb_decode_fixed-pb_encode_fixed_example :
    (out32 out64 : Ostream (List ℕ)) × (pb_encode_fixed32 4000000000 (pb_ostream_from_buffer 4)
      ≡ done tt out32)
    × (out32.bytes_written ≡ 4)
    × (pb_decode_fixed32 (pb_istream_from_buffer out32.state 4)
        ≡ done 4000000000 (buffer_stream [] 0 none))
    × (pb_encode_fixed64 258 (pb_ostream_from_buffer 8) ≡ done tt out64)
    × (out64.bytes_written ≡ 8)
    × (pb_decode_fixed64 (pb_istream_from_buffer out64.state 8)
        ≡ done 258 (buffer_stream [] 0 none))
pb_decode_fixed-pb_encode_fixed_example =
    pb_decode_fixed-pb_encode_fixed 4000000000 258 4 8 (omega arith) (omega arith) (omega arith)
      (omega arith) (omega arith) (omega arith)

pb_decode_tag-pb_encode_tag_example :
    (out : Ostream (List ℕ)) × (pb_encode_tag 2 100 (pb_ostream_from_buffer 16) ≡ done tt out)
    × (pb_decode_tag (pb_istream_from_buffer out.state out.bytes_written)
        ≡ done
            (record { wire_type = 2; number = 100 })
            (record { stream = buffer_stream [] 0 none; eof = false }))
pb_decode_tag-pb_encode_tag_example =
    pb_decode_tag-pb_encode_tag 2 100 16 (omega arith) (omega arith) (omega arith) (omega arith)
      (omega arith)

-- The length 2, padded with a zero byte.
pb_decode_varint32-varint_example :
    pb_decode_varint32 (buffer_stream ((130 ∷ 0 ∷ []) ++ (9 ∷ [])) 3 none)
    ≡ done (varint_value (130 ∷ 0 ∷ [])) (buffer_stream (9 ∷ []) 1 none)
pb_decode_varint32-varint_example =
    pb_decode_varint32-varint (130 ∷ 0 ∷ []) (9 ∷ []) 3 none (omega arith, omega arith, omega arith)
      (omega arith) (omega arith) (omega arith)

pb_decode_varint32_wraps_example :
    pb_decode_varint32 (pb_istream_from_buffer (padding ++ (5 ∷ [])) 38)
    ≡ done 40 (buffer_stream [] 0 none)
pb_decode_varint32_wraps_example = pb_decode_varint32_wraps 5 (omega arith)

hello : Value 2 ((130 ∷ 0 ∷ []) ++ (104 ∷ 105 ∷ []))
hello =
    a_string (130 ∷ 0 ∷ []) (104 ∷ 105 ∷ []) (omega arith, omega arith, omega arith) (omega arith)
      (omega arith) (omega arith)

pb_skip_field-Value_example :
    pb_skip_field 2 (buffer_stream (((130 ∷ 0 ∷ []) ++ (104 ∷ 105 ∷ [])) ++ (9 ∷ [])) 5 none)
    ≡ done tt (buffer_stream (9 ∷ []) 1 none)
pb_skip_field-Value_example =
    pb_skip_field-Value 2 ((130 ∷ 0 ∷ []) ++ (104 ∷ 105 ∷ [])) (9 ∷ []) 5 none hello (omega arith)

pb_close_string_substream-pb_make_string_substream_example :
    (parent : Istream (List ℕ)) × (pb_make_string_substream
        (buffer_stream ((130 ∷ 0 ∷ []) ++ (((104 ∷ []) ++ (105 ∷ [])) ++ (9 ∷ []))) 5 none)
      ≡ done (buffer_stream (((104 ∷ []) ++ (105 ∷ [])) ++ (9 ∷ [])) 2 none) parent)
    × (pb_close_string_substream (buffer_stream ((105 ∷ []) ++ (9 ∷ [])) 1 none) parent
        ≡ done tt (buffer_stream (9 ∷ []) 1 none))
pb_close_string_substream-pb_make_string_substream_example =
    pb_close_string_substream-pb_make_string_substream (130 ∷ 0 ∷ []) (104 ∷ []) (105 ∷ []) (9 ∷ [])
      5 none none (omega arith, omega arith, omega arith) (omega arith) (omega arith) (omega arith)
      (omega arith)

pb_make_string_substream-pb_encode_string_example :
    (out : Ostream (List ℕ)) × (pb_encode_string (104 ∷ 105 ∷ []) 2 (pb_ostream_from_buffer 16)
      ≡ done tt out)
    × (pb_make_string_substream (pb_istream_from_buffer out.state out.bytes_written)
        ≡ done (buffer_stream (104 ∷ 105 ∷ []) 2 none) (buffer_stream (104 ∷ 105 ∷ []) 0 none))
pb_make_string_substream-pb_encode_string_example =
    pb_make_string_substream-pb_encode_string (104 ∷ 105 ∷ []) 16 (omega arith) (omega arith)
      (omega arith)

-- A field of two bytes.
abbrev short_field : Field
short_field = record {
  tag = 3;
  type = 0x00;
  data_offset = 0;
  size_offset = 0;
  data_size = 2;
  array_size = 0;
  ptr = FieldPtr.null;
}

-- It holds -2.
abbrev short_memory : Mem
short_memory = λ a. if a == 8 then 254 else if a == 9 then 255 else 0

short_memory-IsMem : IsMem short_memory
short_memory-IsMem = λ a. ground arith

abbrev zeros : Mem
zeros = λ _. 0

pb_dec_uvarint-pb_enc_uvarint_example :
    (out : Ostream (List ℕ)) × (w : World (List ℕ) (Unit {0})) × (pb_enc_uvarint short_memory
        short_field 8
        (pb_ostream_from_buffer 16)
      ≡ done tt out)
    × (pb_dec_uvarint short_field 40 (record {
      stream = pb_istream_from_buffer out.state out.bytes_written;
      mem = zeros;
      heap = tt;
      fixed_count = 0;
    })
        ≡ done tt w)
    × (w.stream ≡ buffer_stream [] 0 none)
    × (load 2 w.mem 40 ≡ load 2 short_memory 8)
pb_dec_uvarint-pb_enc_uvarint_example =
    pb_dec_uvarint-pb_enc_uvarint short_field 8 40 16 0 short_memory zeros tt refl
      short_memory-IsMem (omega arith) (omega arith)

pb_dec_varint-pb_enc_varint_example :
    (out : Ostream (List ℕ)) × (w : World (List ℕ) (Unit {0})) × (pb_enc_varint short_memory
        short_field 8
        (pb_ostream_from_buffer 16)
      ≡ done tt out)
    × (pb_dec_varint short_field 40 (record {
      stream = pb_istream_from_buffer out.state out.bytes_written;
      mem = zeros;
      heap = tt;
      fixed_count = 0;
    })
        ≡ done tt w)
    × (w.stream ≡ buffer_stream [] 0 none)
    × (load 2 w.mem 40 ≡ load 2 short_memory 8)
pb_dec_varint-pb_enc_varint_example =
    pb_dec_varint-pb_enc_varint short_field 8 40 16 0 short_memory zeros tt refl short_memory-IsMem
      (omega arith) (omega arith)

pb_dec_svarint-pb_enc_svarint_example :
    (out : Ostream (List ℕ)) × (w : World (List ℕ) (Unit {0})) × (pb_enc_svarint short_memory
        short_field 8
        (pb_ostream_from_buffer 16)
      ≡ done tt out)
    × (pb_dec_svarint short_field 40 (record {
      stream = pb_istream_from_buffer out.state out.bytes_written;
      mem = zeros;
      heap = tt;
      fixed_count = 0;
    })
        ≡ done tt w)
    × (w.stream ≡ buffer_stream [] 0 none)
    × (load 2 w.mem 40 ≡ load 2 short_memory 8)
pb_dec_svarint-pb_enc_svarint_example =
    pb_dec_svarint-pb_enc_svarint short_field 8 40 16 0 short_memory zeros tt refl
      short_memory-IsMem (omega arith) (omega arith)

-- An allocator that counts its calls, and gives each its own megabyte.
abbrev bump : Allocator ℕ
bump = record {
  realloc = λ ptr size m calls. (calls * 1048576, m, suc calls);
  free = λ ptr m calls. (m, calls);
}

abbrev a_world : World (List ℕ) ℕ
a_world = record { stream = buffer_stream [] 0 none; mem = zeros; heap = 3; fixed_count = 0 }

allocate_field_example : allocate_field bump 16 4294967296 4294967296 a_world ≡ (
    if (4294967296 == 0) || (4294967296 == 0)
    then error invalid_size a_world
    else if leb 18446744073709551616 18446744073709551616
    then error size_too_large a_world
    else keep_pointer bump 16 a_world
        (bump.realloc (load_pointer zeros 16) 18446744073709551616 zeros 3))
allocate_field_example = allocate_field_lem bump 16 4294967296 4294967296 a_world

abbrev two_fields : List Field
two_fields = short_field ∷ record short_field { tag = 5 } ∷ []

-- The search for tag 3 from the second field on goes around.
pb_field_iter_find_example :
    (found : FieldIter) × (pb_field_iter_find (record (begin_at two_fields 64) { pos = 1 }) 3
      ≡ some (found, any (has_tag 3) two_fields))
    × (found.start ≡ two_fields)
    × (((any (has_tag 3) two_fields ≡ true) × (has_tag 3 (here found) ≡ true))
        ⊎ ((any (has_tag 3) two_fields ≡ false) × (found.pos ≡ 1)))
pb_field_iter_find_example =
    pb_field_iter_find_lem (record (begin_at two_fields 64) { pos = 1 }) 3 (refl, (refl, tt))
      (omega arith)

-- A callback that fails at once.
abbrev broken_stream : Istream ℕ
broken_stream = record {
  is_buf_read = false;
  read = λ calls count. (false, [], suc calls);
  state = 0;
  bytes_left = 20;
  errmsg = none;
}

pb_decode_tag_bounds_example :
    Within 1 20 (pb_decode_varint broken_stream)
    × Within 1 20 (pb_decode_varint32 broken_stream)
    × WithinEof 1 20 (pb_decode_tag broken_stream)
    × Within 1 20 (pb_skip_field 2 broken_stream)
pb_decode_tag_bounds_example = pb_decode_tag_bounds 2 broken_stream

required_seen-mark_all_example :
    required_seen 33 (mark_all (32 ∷ 4 ∷ 32 ∷ [])) ≡ all_below (λ i. elem i (32 ∷ 4 ∷ 32 ∷ [])) 33
required_seen-mark_all_example =
    required_seen-mark_all 33 (32 ∷ 4 ∷ 32 ∷ []) (omega arith)
      (omega arith, (omega arith, (omega arith, tt)))

-- A repeated string behind a pointer, with its counter behind the pointer.
abbrev strings_field : Field
strings_field = record {
  tag = 1;
  type = 0xA6;
  data_offset = 0;
  size_offset = 8;
  data_size = 8;
  array_size = 0;
  ptr = FieldPtr.null;
}

-- An allocator that writes down what it frees.
abbrev log_heap : Allocator (List ℕ)
log_heap = record { realloc = λ ptr size m h. (0, m, h); free = λ ptr m h. (m, ptr ∷ h) }

-- Two strings, at 512 and 768, and the array of their addresses at 1024.
abbrev strings_world : World (List ℕ) (List ℕ)
strings_world = record {
  stream = buffer_stream [] 0 none;
  mem = write_byte 72 2 (write_byte 65 4 (write_byte 1025 2 (write_byte 1033 3 zeros)));
  heap = [];
  fixed_count = 0;
}

strings_owned :
    freed_all {H = List ℕ}
      (λ ptr h. ptr ∷ h)
      (owned (begin_at (strings_field ∷ []) 64) strings_world)
      []
    ≡ 1024 ∷ 768 ∷ 512 ∷ []
unfolding load
strings_owned = refl

pb_release_single_field_example :
    (v : World (List ℕ) (List ℕ)) × (pb_release_single_field log_heap
        (λ _. [])
        (λ _. last_field)
        1
        (begin_at (strings_field ∷ []) 64)
        strings_world
      ≡ done tt v)
    × IsReleased log_heap
        (λ _. [])
        (λ _. last_field)
        (λ ptr h. ptr ∷ h)
        (λ ptr m h. refl)
        (begin_at (strings_field ∷ []) 64)
        strings_world
        v
unfolding load
pb_release_single_field_example =
    pb_release_single_field_lem log_heap (λ _. []) (λ _. last_field) (λ ptr h. ptr ∷ h)
      (λ ptr m h. refl) 0 (begin_at (strings_field ∷ []) 64) strings_world refl refl refl refl
      (inl (omega arith)) (inl (omega arith))

-- 1, padded to ten bytes.
abbrev padded_one : List ℕ
padded_one = 129 ∷ 128 ∷ 128 ∷ 128 ∷ 128 ∷ 128 ∷ 128 ∷ 128 ∷ 128 ∷ 0 ∷ []

padded_one-IsVarint : IsVarint padded_one
padded_one-IsVarint = omega arith

pb_decode_varint-varint_example :
    pb_decode_varint (buffer_stream (padded_one ++ (9 ∷ [])) 11 none)
    ≡ done (varint_value padded_one) (buffer_stream (9 ∷ []) 1 none)
pb_decode_varint-varint_example =
    pb_decode_varint-varint padded_one (9 ∷ []) 11 none padded_one-IsVarint (omega arith)
      (omega arith) (omega arith)
