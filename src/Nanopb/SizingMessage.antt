-- ===== src/Nanopb/SizingMessage.antt =====
-- The two passes agree on whole messages, and what this says of `pb_get_encoded_size`.
use study_hours.Common.{
  ℕ, zero, suc, ◌+◌, ◌^◌, ◌<◌, ◌≡◌, inl, inr, refl, arith, u64, ◌==◌, Bool-cases, Bool, true, false,
  ◌||◌, Option, none, some, List, length,
}
use study_hours.Nanopb.Run.{
  Res, done, failed, stuck, return, set_error, callback_error, missing_required_field,
  invalid_field_type,
}
use study_hours.Nanopb.Ltype
use study_hours.Nanopb.Htype
use study_hours.Nanopb.Atype
use study_hours.Nanopb.Memory.{Mem, load_size, load_pointer}
use study_hours.Nanopb.Field.{
  Field, FieldIter, here, pb_field_iter_begin, pb_field_iter_next, pb_ltype, pb_htype, pb_atype,
}
use study_hours.Nanopb.Ostream.{Ostream, pb_ostream_from_buffer}
use study_hours.Nanopb.Encode.{EncodeEnv}
use study_hours.Nanopb.EncodeMessage.{
  tag_and_value, optional_present, data_of, encode_basic_field, callback_result,
  encode_callback_field, encode_field, default_extension_encoder, encode_extension, extension_loop,
  encode_extension_field, encode_here, encode_fields, pb_encode, pb_get_encoded_size, written_by,
}
use study_hours.Nanopb.Sizing.{
  counting, Writer, EndsAs, Emits-EndsAs, Agrees, >>-Agrees, return-Agrees, return_error-Agrees,
  stuck-Agrees, same-Agrees, if-Agrees,
}
use study_hours.Nanopb.SizingValues.{pb_encode_tag_for_field-Agrees}
use study_hours.Nanopb.SizingArrays.{encoder-Agrees, encode_array-Agrees}

-- The user's functions write alike on both passes.
pub record IsSteady (env : EncodeEnv (List ℕ)) : Type 0 where
  pub callbacks :
      (function : ℕ) (field : Field) (arg : ℕ) → Agrees (env.callback function field arg)
  pub extensions :
      (type : ℕ) (f : ℕ → Writer) (extension : ℕ)
      → env.extension_encode type ≡ some f
      → Agrees (f extension)

module _ (env : EncodeEnv (List ℕ)) (steady : IsSteady env) (mem : Mem) (fuel : ℕ)
    (encode : List Field → ℕ → Writer)
    (agree : (fields : List Field) (src : ℕ) → Agrees (encode fields src)) where
  tag_and_value-Agrees :
      (field : Field) (src : ℕ) → Agrees (tag_and_value env mem fuel encode field src)
  unfolding tag_and_value
  tag_and_value-Agrees field src =
      >>-Agrees _ _ (pb_encode_tag_for_field-Agrees field)
        (encoder-Agrees env mem encode agree field src)

  encode_basic_field-Agrees :
      (field : Field) (p_data : ℕ) → Agrees (encode_basic_field env mem fuel encode field p_data)
  unfolding encode_basic_field
  encode_basic_field-Agrees field p_data =
      let src = data_of env mem fuel encode field p_data in
      let htype = pb_htype field.type in
      let p_size = u64 (p_data + field.size_offset) in
      if-Agrees (htype == Htype.required) _ _
        (if-Agrees (src == 0) _ _ (return_error-Agrees missing_required_field)
          (tag_and_value-Agrees field src))
        (if-Agrees (htype == Htype.optional) _ _
          (when_present src (optional_present env mem fuel encode field p_data src))
          (if-Agrees (htype == Htype.repeated) _ _
            (encode_array-Agrees env mem encode agree field _ src)
            (if-Agrees (field.size_offset == 0) _ _ stuck-Agrees (
              if-Agrees (load_size mem p_size == field.tag) _ _ (tag_and_value-Agrees field src)
                return-Agrees))))
    where
      when_present :
          (src : ℕ) (o : Option Bool)
          → Agrees (elim o as (λ _. Writer) [
            | none ↦ λ s. stuck
            | some true ↦ tag_and_value env mem fuel encode field src
            | some false ↦ return tt
          ])
      when_present src none = stuck-Agrees
      when_present src (some true) = tag_and_value-Agrees field src
      when_present src (some false) = return-Agrees

  callback_result-Agrees :
      (m : Writer) → Agrees m → Agrees (λ s. callback_result env mem fuel encode (m s))
  callback_result-Agrees m (inl (bs, p)) = inl (
    bs,
    record {
      sizes = λ state written h. rw (p.sizes state written h);
      writes = λ dest max_size written h small. rw (p.writes dest max_size written h small);
      overflows = λ dest max_size written fits over h.
          let (s, e) = p.overflows dest max_size written fits over h in
          (record s { errmsg = set_error s.errmsg callback_error }, rw e);
    },
  )
  callback_result-Agrees m (inr p) = inr (record {
    refuses = λ state written s h e.
        p.refuses state written s h (passes (m (counting state written)) s e);
  })
    where
      passes :
          (r : Res (Ostream (List ℕ)) (Unit {0})) (s : Ostream (List ℕ))
          → callback_result env mem fuel encode r ≡ done tt s
          → r ≡ done tt s
      passes (done _ t) s e = e
      passes (failed t) s e = cc
      passes stuck s e = cc

  encode_callback_field-Agrees :
      (field : Field) (p_data : ℕ) → Agrees (encode_callback_field env mem fuel encode field p_data)
  encode_callback_field-Agrees field p_data = elim (Bool-cases (load_pointer mem p_data == 0)) [
    | inl e ↦ same-Agrees _ (return tt) (λ s. unfold encode_callback_field in rw e) return-Agrees
    | inr e ↦
        let call = env.callback (load_pointer mem p_data) field (p_data + 8) in
        same-Agrees _ (λ s. callback_result env mem fuel encode (call s))
          (λ s. unfold encode_callback_field in rw e)
          (callback_result-Agrees call (steady.callbacks _ field _))
  ]

  encode_field-Agrees :
      (field : Field) (p_data : ℕ) → Agrees (encode_field env mem fuel encode field p_data)
  unfolding encode_field
  encode_field-Agrees field p_data =
      let atype = pb_atype field.type in
      if-Agrees ((atype == Atype.static) || (atype == Atype.pointer)) _ _
        (encode_basic_field-Agrees field p_data)
        (if-Agrees (atype == Atype.callback) _ _ (encode_callback_field-Agrees field p_data)
          (return_error-Agrees invalid_field_type))

  default_extension_encoder-Agrees :
      (extension : ℕ) → Agrees (default_extension_encoder env mem fuel encode extension)
  unfolding default_extension_encoder
  default_extension_encoder-Agrees extension =
      let field = env.extension_field (load_pointer mem extension) in
      if-Agrees (pb_atype field.type == Atype.pointer) _ _ (encode_field-Agrees field _)
        (encode_field-Agrees field _)

  encode_extension-Agrees :
      (extension : ℕ) → Agrees (encode_extension env mem fuel encode extension)
  encode_extension-Agrees extension = go (env.extension_encode (load_pointer mem extension)) refl
    where
      go :
          (o : Option (ℕ → Writer))
          → env.extension_encode (load_pointer mem extension) ≡ o
          → Agrees (elim o as (λ _. Writer) [
            | some f ↦ f extension
            | none ↦ default_extension_encoder env mem fuel encode extension
          ])
      go none e = default_extension_encoder-Agrees extension
      go (some f) e = steady.extensions (load_pointer mem extension) f extension e

  extension_loop-Agrees :
      (rounds extension : ℕ) → Agrees (extension_loop env mem fuel encode rounds extension)
  unfolding extension_loop
  extension_loop-Agrees zero extension = stuck-Agrees
  extension_loop-Agrees (suc rounds) extension =
      if-Agrees (extension == 0) _ _ return-Agrees
        (>>-Agrees _ _ (encode_extension-Agrees extension) (extension_loop-Agrees rounds _))

  encode_here-Agrees : (iter : FieldIter) → Agrees (encode_here env mem fuel encode iter)
  encode_here-Agrees iter =
      if-Agrees (pb_ltype (here iter).type == Ltype.extension) _ _
        (unfold encode_extension_field in extension_loop-Agrees fuel _)
        (encode_field-Agrees (here iter) iter.p_data)

  pub encode_fields-Agrees :
      (rounds : ℕ) (iter : FieldIter) → Agrees (encode_fields env mem fuel encode rounds iter)
  unfolding encode_fields
  encode_fields-Agrees zero iter = stuck-Agrees
  encode_fields-Agrees (suc rounds) iter =
      let next = pb_field_iter_next iter in
      >>-Agrees _ _ (encode_here-Agrees iter)
        (if-Agrees next.1 _ _ (encode_fields-Agrees rounds next.0) return-Agrees)

module _ (env : EncodeEnv (List ℕ)) (steady : IsSteady env) (mem : Mem) where
  pub pb_encode-Agrees :
      (fuel : ℕ) (fields : List Field) (src : ℕ) → Agrees (pb_encode env mem fuel fields src)
  unfolding pb_encode
  pb_encode-Agrees zero fields src = stuck-Agrees
  pb_encode-Agrees (suc fuel) fields src =
      let begin = pb_field_iter_begin fields src in
      if-Agrees begin.1 _ _
        (encode_fields-Agrees env steady mem fuel (pb_encode env mem fuel) (pb_encode-Agrees fuel)
          (length fields) begin.0)
        return-Agrees

  -- For user functions whose sizing run and writing run agree: where `pb_get_encoded_size` returns a
  -- size, the message takes some bytes whose number is that
  -- size modulo 2 ^ 64. Over a buffer with room for them `pb_encode` returns true and writes
  -- exactly them, and over a smaller one it returns false, unless the two sizes together reach
  -- 2 ^ 64.
  pub pb_encode-pb_get_encoded_size :
      (fuel : ℕ) (fields : List Field) (src size bufsize : ℕ) (state : List ℕ)
      → pb_get_encoded_size env mem fuel fields src state ≡ some size
      → bufsize < 2 ^ 64
      → (bs : List ℕ) × (size ≡ u64 (length bs))
        × EndsAs bs bufsize (pb_encode env mem fuel fields src (pb_ostream_from_buffer bufsize))
  pb_encode-pb_get_encoded_size fuel fields src size bufsize state h small =
      go (pb_encode-Agrees fuel fields src)
    where
      m : Writer
      m = pb_encode env mem fuel fields src

      result :
          (r : Res (Ostream (List ℕ)) (Unit {0}))
          → written_by env mem r ≡ some size
          → (s : Ostream (List ℕ)) × (r ≡ done tt s)
      result (done _ s) e = (s, refl)
      result (failed s) e = cc
      result stuck e = cc

      sized : written_by env mem (m (counting state 0)) ≡ some size
      sized = unfold pb_get_encoded_size in h

      go :
          Agrees m
          → (bs : List ℕ) × (size ≡ u64 (length bs))
            × EndsAs bs bufsize (m (pb_ostream_from_buffer bufsize))
      go (inl (bs, p)) =
          let counted = rw (p.sizes state 0 (omega arith)) at sized in
          (bs, ground arith, Emits-EndsAs m bs bufsize p small)
      go (inr p) =
          let (s, e) = result (m (counting state 0)) sized in
          absurd (p.refuses state 0 s (omega arith) e)
