-- ===== src/Nanopb/Examples.antt =====
-- Concrete runs of nanopb, and the theorems at concrete inputs.
use study_hours.Common.{ℕ, ◌≡◌, refl, arith, Option, none, some, List, [], ◌∷◌, u64, length}
use study_hours.Nanopb.Run.{Res, Message, done, failed, stuck, return}
use study_hours.Nanopb.Memory.{Mem, load, write_byte}
use study_hours.Nanopb.Field.{Field, FieldPtr, last_field}
use study_hours.Nanopb.Ostream.{Ostream, pb_encode_varint, pb_ostream_from_buffer}
use study_hours.Nanopb.Istream.{buffer_stream, pb_decode_varint, pb_istream_from_buffer}
use study_hours.Nanopb.Encode.{EncodeEnv}
use study_hours.Nanopb.EncodeMessage.{pb_encode, pb_get_encoded_size}
use study_hours.Nanopb.Codec.Varint.{pb_decode_varint-pb_encode_varint}
use study_hours.Nanopb.World.{World}
use study_hours.Nanopb.DecodeField.{DecodeEnv}
use study_hours.Nanopb.DecodeMessage.{pb_decode}
use study_hours.Nanopb.Sizing.{EndsAs, return-Agrees}
use study_hours.Nanopb.SizingMessage.{IsSteady, pb_encode-pb_get_encoded_size}

pb_decode_varint-pb_encode_varint_example :
    (out : Ostream (List ℕ)) × (pb_encode_varint 300 (pb_ostream_from_buffer 16) ≡ done tt out)
    × (pb_decode_varint (pb_istream_from_buffer out.state out.bytes_written)
        ≡ done 300 (buffer_stream [] 0 none))
pb_decode_varint-pb_encode_varint_example =
    pb_decode_varint-pb_encode_varint 300 16 (omega arith) (omega arith) (omega arith)

-- A message with one required `uint32`, at address 64, which holds 300.
abbrev counter_field : Field
counter_field = record {
  tag = 1;
  type = 0x01;
  data_offset = 0;
  size_offset = 0;
  data_size = 4;
  array_size = 0;
  ptr = FieldPtr.null;
}

abbrev counter_memory : Mem
counter_memory = write_byte 64 44 (write_byte 65 1 (λ _. 0))

abbrev quiet_env : EncodeEnv (List ℕ)
quiet_env = record {
  descriptors = λ _. [];
  callback = λ _ _ _. return tt;
  extension_encode = λ _. none;
  extension_field = λ _. last_field;
}

quiet_env-IsSteady : IsSteady quiet_env
quiet_env-IsSteady = record { callbacks = λ _ _ _. return-Agrees; extensions = λ _ _ _ e. cc }

counter_size : pb_get_encoded_size quiet_env counter_memory 2 (counter_field ∷ []) 64 [] ≡ some 3
unfolding pb_get_encoded_size study_hours.Nanopb.Field.pb_field_iter_begin
    study_hours.Nanopb.Encoder.pb_encode_tag_for_field study_hours.Nanopb.Ostream.pb_encode_tag
    pb_encode_varint study_hours.Nanopb.Ostream.pb_write study_hours.Nanopb.Encode.encoder
    study_hours.Nanopb.Encoder.pb_enc_uvarint study_hours.Nanopb.Memory.load
    study_hours.Nanopb.Ostream.fill_buffer study_hours.Nanopb.Field.pb_field_iter_next
counter_size = refl

pb_encode-pb_get_encoded_size_example :
    (bs : List ℕ) × (3 ≡ u64 (length bs))
    × EndsAs bs 16
        (pb_encode quiet_env counter_memory 2 (counter_field ∷ []) 64 (pb_ostream_from_buffer 16))
pb_encode-pb_get_encoded_size_example =
    pb_encode-pb_get_encoded_size quiet_env quiet_env-IsSteady counter_memory 2 (counter_field ∷ [])
      64 3 16 [] counter_size (omega arith)

abbrev counter_env : DecodeEnv (List ℕ) (Unit {0})
counter_env = record {
  alloc = record { realloc = λ ptr size m h. (0, m, h); free = λ ptr m h. (m, h) };
  descriptors = λ _. [];
  callback = λ _ _ _ w. stuck;
  buffer_callback = λ _ _ _ w. stuck;
  callback_rounds = 0;
  extension_decode = λ _. none;
  extension_field = λ _. last_field;
}

-- An unknown field of number 2, and then the counter.
abbrev counter_bytes : List ℕ
counter_bytes = 16 ∷ 5 ∷ 8 ∷ 172 ∷ 2 ∷ []

abbrev decoded : List ℕ → Res (World (List ℕ) (Unit {0})) (Unit {0})
decoded bytes = pb_decode counter_env 2 (counter_field ∷ []) 64 (record {
  stream = pb_istream_from_buffer bytes (length bytes);
  mem = λ _. 7;
  heap = tt;
  fixed_count = 0;
})

abbrev value_at : ℕ → Res (World (List ℕ) (Unit {0})) (Unit {0}) → Option ℕ
value_at a (done _ w) = some (load 4 w.mem a)
value_at a (failed w) = none
value_at a stuck = none

abbrev message_of : Res (World (List ℕ) (Unit {0})) (Unit {0}) → Option Message
message_of (done _ w) = none
message_of (failed w) = w.stream.errmsg
message_of stuck = none

-- The unknown field is skipped, and the counter is stored.
counter_decoded : value_at 64 (decoded counter_bytes) ≡ some 300
unfolding pb_decode study_hours.Nanopb.DecodeField.decode_new
    study_hours.Nanopb.Defaults.pb_message_set_to_defaults
    study_hours.Nanopb.Field.pb_field_iter_begin study_hours.Nanopb.Field.pb_field_iter_next
    pb_istream_from_buffer study_hours.Nanopb.Reader.pb_decode_tag
    study_hours.Nanopb.Istream.pb_decode_varint32_eof study_hours.Nanopb.Istream.pb_readbyte
    study_hours.Nanopb.Istream.buf_read study_hours.Nanopb.Field.pb_field_iter_find
    study_hours.Nanopb.Field.find_extension_field study_hours.Nanopb.Reader.pb_skip_field
    study_hours.Nanopb.Reader.pb_skip_varint study_hours.Nanopb.Istream.pb_read
    study_hours.Nanopb.DecodePointer.decode_field study_hours.Nanopb.DecodeField.decode_static_field
    study_hours.Nanopb.Decoder.pb_dec_uvarint pb_decode_varint load study_hours.Nanopb.Memory.store
counter_decoded = refl

-- Without the required field the message is refused.
counter_missing : message_of (decoded (16 ∷ 5 ∷ [])) ≡ some Message.missing_required_field
unfolding pb_decode study_hours.Nanopb.DecodeField.decode_new
    study_hours.Nanopb.Defaults.pb_message_set_to_defaults
    study_hours.Nanopb.Field.pb_field_iter_begin study_hours.Nanopb.Field.pb_field_iter_next
    pb_istream_from_buffer study_hours.Nanopb.Reader.pb_decode_tag
    study_hours.Nanopb.Istream.pb_decode_varint32_eof study_hours.Nanopb.Istream.pb_readbyte
    study_hours.Nanopb.Istream.buf_read study_hours.Nanopb.Field.pb_field_iter_find
    study_hours.Nanopb.Field.find_extension_field study_hours.Nanopb.Reader.pb_skip_field
    study_hours.Nanopb.Reader.pb_skip_varint study_hours.Nanopb.Istream.pb_read
    study_hours.Nanopb.Release.pb_release
counter_missing = refl
