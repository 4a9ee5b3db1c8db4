-- ===== src/Nanopb/DecodeField.antt =====
-- pb_decode.c: decoding the value of one field. `fuel` bounds how deep messages nest and how long
-- a list of extensions is.
use study_hours.Common.{
  ℕ, zero, suc, ◌+◌, ◌*◌, u32, u64, leb, ◌==◌, if◌then◌else◌, Bool, ◌&&◌, ◌||◌, Option, List,
}
use study_hours.Nanopb.Run.{
  Res, done, failed, stuck, ◌>>=◌, ◌>>◌, and_then, return, array_overflow, invalid_field_type,
  invalid_field_descriptor,
}
use study_hours.Nanopb.Ltype
use study_hours.Nanopb.Htype
use study_hours.Nanopb.Memory.{store_zeros}
use study_hours.Nanopb.Field.{
  Field, FieldPtr, null, submsg, default_value, FieldIter, here, pb_ltype, pb_htype,
}
use study_hours.Nanopb.Istream.{Istream}
use study_hours.Nanopb.Reader.{pb_make_string_substream, pb_close_string_substream, wt_string}
use study_hours.Nanopb.World.{
  Allocator, World, on_stream, modify, error, get_size, set_size, set_flag,
}
use study_hours.Nanopb.Decoder.{
  pb_dec_varint, pb_dec_uvarint, pb_dec_svarint, pb_dec_fixed32, pb_dec_fixed64, pb_dec_bytes,
  pb_dec_string, pb_dec_fixed_length_bytes,
}
use study_hours.Nanopb.Defaults.{is_data, pb_message_set_to_defaults}
use study_hours.Nanopb.Release.{Step, pb_release}

-- What the decoder is given besides the stream and the message: the allocator, the descriptor
-- arrays, the user's functions by their addresses (on the stream of the message, and on a buffer
-- with one value), and the `pb_extension_type_t` at an address, by its `decode` member and its
-- `arg`. `callback_rounds` bounds how often a callback is called on one substream.
pub record DecodeEnv {ℓ κ} (S : Type ℓ) (H : Type κ) : Type (ℓ ⊔ κ) where
  pub alloc : Allocator H
  pub descriptors : ℕ → List Field
  pub callback : ℕ → Field → ℕ → Step S H
  pub buffer_callback : ℕ → Field → ℕ → Step (List ℕ) H
  pub callback_rounds : ℕ
  pub extension_decode : ℕ → Option (ℕ → ℕ → ℕ → Step S H)
  pub extension_field : ℕ → Field

module _ {ℓ κ} {S : Type ℓ} {H : Type κ} where
  -- `pb_close_string_substream` behind a `status`.
  abbrev pub close_true : Istream S → World S H → Res (World S H) (Unit {0})
  close_true parent v =
      on_stream (pb_close_string_substream v.stream) (record v { stream = parent })

  abbrev pub close_false : Istream S → World S H → Res (World S H) (Unit {0})
  close_false parent v = and_then (close_true parent v) (λ _ u. failed u)

  abbrev pub close_with_status : Istream S → Res (World S H) (Unit {0}) → Res (World S H) (Unit {0})
  close_with_status parent (done _ v) = close_true parent v
  close_with_status parent (failed v) = close_false parent v
  close_with_status parent stuck = stuck

  abbrev pub open_substream : (Istream S → Step S H) → Step S H
  open_substream body = on_stream pb_make_string_substream >>= body

  abbrev pub within_substream : Step S H → Step S H
  within_substream body =
      open_substream (λ sub v. close_with_status v.stream (body (record v { stream = sub })))

  -- `noinit` is `pb_decode_noinit` on a submessage.
  module _ (env : DecodeEnv S H) (fuel : ℕ) (noinit : List Field → ℕ → Step S H) where
    abbrev pub set_to_defaults : FieldPtr → ℕ → Step S H
    set_to_defaults (submsg k) dest =
        pb_message_set_to_defaults env.descriptors env.extension_field fuel (env.descriptors k) dest
    set_to_defaults null dest = λ w. stuck
    set_to_defaults (default_value _) dest = λ w. stuck

    abbrev pub release_failed :
        List Field → ℕ → Res (World S H) (Unit {0}) → Res (World S H) (Unit {0})
    release_failed fields dest (done _ w) = done tt w
    release_failed fields dest (failed w) =
        and_then (pb_release env.alloc env.descriptors env.extension_field fuel fields dest w)
          (λ _ v. failed v)
    release_failed fields dest stuck = stuck

    -- `pb_decode` on a submessage.
    unfoldable pub decode_new : List Field → ℕ → Step S H
    decode_new fields dest w = release_failed fields dest (
        (pb_message_set_to_defaults env.descriptors env.extension_field fuel fields dest
            >> noinit fields dest)
          w)

    -- The null pointer is found behind the substream, which is then not closed.
    abbrev pub submessage_body : Field → FieldPtr → ℕ → Istream S → Step S H
    submessage_body field (submsg k) dest sub v =
        let decode =
          if pb_htype field.type == Htype.repeated
          then decode_new (env.descriptors k) dest
          else noinit (env.descriptors k) dest in
        close_with_status v.stream (decode (record v { stream = sub }))
    submessage_body field null dest sub v = error invalid_field_descriptor v
    submessage_body field (default_value _) dest sub v = stuck

    unfoldable pub pb_dec_submessage : Field → ℕ → Step S H
    unfolding decode_new
    pb_dec_submessage field dest = open_substream (submessage_body field field.ptr dest)

    -- `PB_DECODERS[ltype]`. A call through the null entry or behind the table has no meaning.
    unfoldable pub decoder : Field → ℕ → Step S H
    unfolding pb_dec_submessage
    decoder field dest =
        let ltype = pb_ltype field.type in
        if ltype == Ltype.varint
        then pb_dec_varint field dest
        else if ltype == Ltype.uvarint
        then pb_dec_uvarint field dest
        else if ltype == Ltype.svarint
        then pb_dec_svarint field dest
        else if ltype == Ltype.fixed32
        then pb_dec_fixed32 field dest
        else if ltype == Ltype.fixed64
        then pb_dec_fixed64 field dest
        else if ltype == Ltype.bytes
        then pb_dec_bytes env.alloc field dest
        else if ltype == Ltype.string
        then pb_dec_string env.alloc field dest
        else if ltype == Ltype.submessage
        then pb_dec_submessage field dest
        else if ltype == Ltype.fixed_length_bytes
        then pb_dec_fixed_length_bytes field dest
        else (λ w. stuck)

    abbrev pub is_packed : ℕ → Field → Bool
    is_packed wire_type field =
        (wire_type == wt_string) && leb (pb_ltype field.type) Ltype.last_packable

    -- The packed loop over a static array; it ends also where the array is full.
    unfoldable pub static_items : ℕ → FieldIter → Step S H
    static_items zero iter w = stuck
    static_items (suc rounds) iter w =
        let field = here iter in
        let rest = static_items rounds iter in
        (get_size iter.p_size >>= λ size v.
        if (v.stream.bytes_left == 0) || leb field.array_size size
        then done tt v
        else (decoder field (u64 (iter.p_data + u32 (field.data_size * size)))
              >> (get_size iter.p_size >>= λ n. set_size iter.p_size (u32 (n + 1)))
              >> rest)
            v)
          w

    -- What is left of the substream is an error, whatever the status is.
    abbrev pub close_full :
        Istream S → World S H → Res (World S H) (Unit {0}) → Res (World S H) (Unit {0})
    close_full parent v closed =
        if v.stream.bytes_left == 0
        then closed
        else error array_overflow (record v { stream = parent })

    abbrev pub end_static : Istream S → Res (World S H) (Unit {0}) → Res (World S H) (Unit {0})
    end_static parent (done _ v) = close_full parent v (close_true parent v)
    end_static parent (failed v) = close_full parent v (close_false parent v)
    end_static parent stuck = stuck

    abbrev pub static_packed : FieldIter → Step S H
    static_packed iter = open_substream (λ sub v.
        end_static v.stream (static_items (suc sub.bytes_left) iter (record v { stream = sub })))

    -- The count goes up before it is compared.
    abbrev pub static_repeated : FieldIter → Step S H
    static_repeated iter = do
      let field = here iter
      size ← get_size iter.p_size
      set_size iter.p_size (u32 (size + 1))
      if leb field.array_size size
          then error array_overflow
          else decoder field (u64 (iter.p_data + u32 (field.data_size * size)))

    abbrev pub static_oneof : FieldIter → Step S H
    static_oneof iter = do
      let field = here iter
      set_size iter.p_size field.tag
      if pb_ltype field.type == Ltype.submessage
          then (modify (store_zeros field.data_size iter.p_data)
              >> set_to_defaults field.ptr iter.p_data)
          else return tt
      decoder field iter.p_data

    unfoldable pub decode_static_field : ℕ → FieldIter → Step S H
    unfolding decoder static_items
    decode_static_field wire_type iter =
        let field = here iter in
        let htype = pb_htype field.type in
        if htype == Htype.required
        then decoder field iter.p_data
        else if htype == Htype.optional
        then ((if is_data iter.p_size iter.p_data then return tt else set_flag iter.p_size 1)
            >> decoder field iter.p_data)
        else if htype == Htype.repeated
        then (if is_packed wire_type field then static_packed iter else static_repeated iter)
        else if htype == Htype.oneof
        then static_oneof iter
        else error invalid_field_type
