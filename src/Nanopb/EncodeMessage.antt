-- ===== src/Nanopb/EncodeMessage.antt =====
-- pb_encode.c from single fields up to `pb_encode`. `fuel` bounds how deep messages nest and how
-- long a list of extensions is.
use study_hours.Common.{
  ℕ, zero, suc, ◌+◌, u64, ◌==◌, if◌then◌else◌, Bool, true, false, not, ◌||◌, Option, none, some,
  List, [], ◌∷◌, length,
}
use study_hours.Nanopb.Run.{
  Res, done, failed, stuck, M, ◌>>◌, return, invalid_field_type, missing_required_field,
  callback_error,
}
use study_hours.Nanopb.Ltype
use study_hours.Nanopb.Htype
use study_hours.Nanopb.Atype
use study_hours.Nanopb.Memory.{Mem, load_size, load_pointer, load_bool, all_zero}
use study_hours.Nanopb.Field.{
  Field, FieldPtr, null, submsg, default_value, FieldIter, here, pb_field_iter_begin,
  pb_field_iter_next, pb_ltype, pb_htype, pb_atype,
}
use study_hours.Nanopb.Ostream.{Ostream, return_error, sizing_stream, pb_write}
use study_hours.Nanopb.Encoder.{pb_encode_tag_for_field, pb_encode_submessage}
use study_hours.Nanopb.Encode.{EncodeEnv, encoder, encode_array}

module _ (descriptors : ℕ → List Field) (mem : Mem) where
  -- The `do … while (pb_field_iter_next)` loop over the fields of a submessage.
  unfoldable pub check_fields : ℕ → (Field → ℕ → Option Bool) → FieldIter → Option Bool
  check_fields zero check iter = none
  check_fields (suc rounds) check iter =
      let next = pb_field_iter_next iter in
      let rest = check_fields rounds check next.0 in
      elim (check (here iter) iter.p_data) [
        | none ↦ none
        | some false ↦ some false
        | some true ↦ if next.1 then rest else some true
      ]

  unfoldable pub check_submessage : (Field → ℕ → Option Bool) → FieldPtr → ℕ → Option Bool
  check_submessage check (submsg k) p_data =
      let begin = pb_field_iter_begin (descriptors k) p_data in
      if begin.1 then check_fields (length (descriptors k)) check begin.0 else some true
  check_submessage check null p_data = none
  check_submessage check (default_value _) p_data = none

  -- A proto3 field without a presence flag; `check` is the call on the fields of a submessage.
  unfoldable pub check_singular : (Field → ℕ → Option Bool) → Field → ℕ → Option Bool
  unfolding check_submessage check_fields
  check_singular check field p_data =
      let ltype = pb_ltype field.type in
      if not (pb_atype field.type == Atype.static)
      then some (all_zero field.data_size mem p_data)
      else if ltype == Ltype.bytes
      then some (load_size mem p_data == 0)
      else if ltype == Ltype.string
      then some (mem p_data == 0)
      else if ltype == Ltype.fixed_length_bytes
      then some (field.data_size == 0)
      else if ltype == Ltype.submessage
      then check_submessage check field.ptr p_data
      else some (all_zero field.data_size mem p_data)

  unfoldable pub pb_check_proto3_default_value : ℕ → Field → ℕ → Option Bool
  unfolding check_singular
  pb_check_proto3_default_value zero field p_data = none
  pb_check_proto3_default_value (suc fuel) field p_data =
      let p_size = u64 (p_data + field.size_offset) in
      let htype = pb_htype field.type in
      let singular = check_singular (pb_check_proto3_default_value fuel) field p_data in
      if htype == Htype.required
      then some false
      else if (htype == Htype.repeated) || (htype == Htype.oneof)
      then some (load_size mem p_size == 0)
      else if not (field.size_offset == 0)
      then some (not (load_bool mem p_size))
      else singular

module _ {ℓ} {S : Type ℓ} (env : EncodeEnv S) (mem : Mem) (fuel : ℕ)
    (encode : List Field → ℕ → M (Ostream S) (Unit {0})) where
  unfoldable pub tag_and_value : Field → ℕ → M (Ostream S) (Unit {0})
  tag_and_value field p_data = do pb_encode_tag_for_field field; encoder env mem encode field p_data

  -- What `*(const bool*)p_size` says for an optional field; `p_data` is the field before, and `data`
  -- after the step through a pointer.
  unfoldable pub optional_present : Field → ℕ → ℕ → Option Bool
  optional_present field p_data data_address =
      if not (field.size_offset == 0)
      then some (load_bool mem (u64 (p_data + field.size_offset)))
      else if pb_atype field.type == Atype.pointer
      then some (not (data_address == 0))
      else elim (pb_check_proto3_default_value env.descriptors mem fuel field p_data) [
        | none ↦ none
        | some zero_value ↦ some (not zero_value)
      ]

  abbrev pub data_of : Field → ℕ → ℕ
  data_of field p_data =
      if pb_atype field.type == Atype.pointer then load_pointer mem p_data else p_data

  unfoldable pub encode_basic_field : Field → ℕ → M (Ostream S) (Unit {0})
  unfolding tag_and_value optional_present
  encode_basic_field field p_data =
      let src = data_of field p_data in
      let htype = pb_htype field.type in
      let p_size = u64 (p_data + field.size_offset) in
      if htype == Htype.required
      then (if src == 0 then return_error missing_required_field else tag_and_value field src)
      else if htype == Htype.optional
      then elim (optional_present field p_data src) [
        | none ↦ λ s. stuck
        | some true ↦ tag_and_value field src
        | some false ↦ return tt
      ]
      else if htype == Htype.repeated
      then encode_array env mem encode field src
          (if field.size_offset == 0 then field.array_size else load_size mem p_size)
      else if field.size_offset == 0
      then (λ s. stuck)
      else if load_size mem p_size == field.tag
      then tag_and_value field src
      else return tt

  abbrev pub callback_result : Res (Ostream S) (Unit {0}) → Res (Ostream S) (Unit {0})
  callback_result (done _ s) = done tt s
  callback_result (failed s) = return_error callback_error s
  callback_result stuck = stuck

  -- A `pb_callback_t` is the function pointer and `arg`.
  unfoldable pub encode_callback_field : Field → ℕ → M (Ostream S) (Unit {0})
  encode_callback_field field p_data s =
      let function = load_pointer mem p_data in
      if function == 0
      then done tt s
      else callback_result (env.callback function field (p_data + 8) s)

  unfoldable pub encode_field : Field → ℕ → M (Ostream S) (Unit {0})
  unfolding encode_basic_field encode_callback_field
  encode_field field p_data =
      let atype = pb_atype field.type in
      if (atype == Atype.static) || (atype == Atype.pointer)
      then encode_basic_field field p_data
      else if atype == Atype.callback
      then encode_callback_field field p_data
      else return_error invalid_field_type

  -- A `pb_extension_t` is the pointers `type`, `dest` and `next`, and `found`.
  unfoldable pub default_extension_encoder : ℕ → M (Ostream S) (Unit {0})
  unfolding encode_field
  default_extension_encoder extension =
      let field = env.extension_field (load_pointer mem extension) in
      if pb_atype field.type == Atype.pointer
      then encode_field field (extension + 8)
      else encode_field field (load_pointer mem (extension + 8))

  abbrev pub encode_extension : ℕ → M (Ostream S) (Unit {0})
  encode_extension extension = elim (env.extension_encode (load_pointer mem extension)) [
    | some f ↦ f extension
    | none ↦ default_extension_encoder extension
  ]

  unfoldable pub extension_loop : ℕ → ℕ → M (Ostream S) (Unit {0})
  extension_loop zero extension = λ s. stuck
  extension_loop (suc rounds) extension =
      let rest = extension_loop rounds (load_pointer mem (extension + 16)) in
      if extension == 0 then return tt else (encode_extension extension >> rest)

  unfoldable pub encode_extension_field : ℕ → M (Ostream S) (Unit {0})
  unfolding extension_loop default_extension_encoder
  encode_extension_field p_data = extension_loop fuel (load_pointer mem p_data)

  abbrev pub encode_here : FieldIter → M (Ostream S) (Unit {0})
  encode_here iter =
      if pb_ltype (here iter).type == Ltype.extension
      then encode_extension_field iter.p_data
      else encode_field (here iter) iter.p_data

  -- The `do … while (pb_field_iter_next)` loop of `pb_encode`.
  unfoldable pub encode_fields : ℕ → FieldIter → M (Ostream S) (Unit {0})
  unfolding encode_extension_field encode_field
  encode_fields zero iter = λ s. stuck
  encode_fields (suc rounds) iter =
      let next = pb_field_iter_next iter in
      let rest = encode_fields rounds next.0 in
      encode_here iter >> (if next.1 then rest else return tt)

module _ {ℓ} {S : Type ℓ} (env : EncodeEnv S) (mem : Mem) where
  unfoldable pub pb_encode : ℕ → List Field → ℕ → M (Ostream S) (Unit {0})
  unfolding encode_fields
  pb_encode zero fields src = λ s. stuck
  pb_encode (suc fuel) fields src =
      let begin = pb_field_iter_begin fields src in
      if begin.1
      then encode_fields env mem fuel (pb_encode fuel) (length fields) begin.0
      else return tt

  unfoldable pub pb_encode_delimited : ℕ → List Field → ℕ → M (Ostream S) (Unit {0})
  unfolding pb_encode
  pb_encode_delimited fuel fields src = pb_encode_submessage (pb_encode fuel fields src)

  unfoldable pub pb_encode_nullterminated : ℕ → List Field → ℕ → M (Ostream S) (Unit {0})
  unfolding pb_encode
  pb_encode_nullterminated fuel fields src = do pb_encode fuel fields src; pb_write (0 ∷ []) 1

  abbrev pub written_by : Res (Ostream S) (Unit {0}) → Option ℕ
  written_by (done _ s) = some s.bytes_written
  written_by (failed s) = none
  written_by stuck = none

  -- `*size`, or `none` where the call returns false. The last argument is the state of the sizing stream.
  unfoldable pub pb_get_encoded_size : ℕ → List Field → ℕ → S → Option ℕ
  unfolding pb_encode
  pb_get_encoded_size fuel fields src state =
      written_by (pb_encode fuel fields src (sizing_stream state))
