-- ===== src/Nanopb/SizingArrays.antt =====
-- The two passes agree on the encoders of one value, and on arrays.
use study_hours.Common.{
  ℕ, zero, suc, ◌+◌, ◌*◌, ◌≡◌, inl, inr, refl, ◌∙◌, arith, u64, ltb, leb, ◌==◌, Bool-cases, not,
  ◌&&◌, List, [], ◌++◌, length, length-append,
}
use study_hours.Nanopb.Run.{
  Res, done, failed, stuck, M, ◌>>=◌, ◌>>◌, and_then, array_max_size_exceeded,
  invalid_field_descriptor,
}
use study_hours.Nanopb.Ltype
use study_hours.Nanopb.Atype
use study_hours.Nanopb.Memory.{Mem}
use study_hours.Nanopb.Field.{Field, FieldPtr, null, submsg, default_value, pb_ltype, pb_atype}
use study_hours.Nanopb.Ostream.{
  Ostream, return_error, sizing_stream, pb_write, pb_encode_varint, pb_encode_fixed32,
  pb_encode_fixed64,
}
use study_hours.Nanopb.Encoder.{pb_encode_submessage, pb_enc_fixed32, pb_enc_fixed64}
use study_hours.Nanopb.Encode.{
  EncodeEnv, pb_enc_submessage, encoder, encode_items, encode_tagged_items, size_from, packed_size,
  write_items, encode_packed, encode_array,
}
use study_hours.Nanopb.Sizing.{
  counting, writing, Writer, Emits, Agrees, >>-Emits, >>-Agrees, return-Emits, return-Agrees,
  return_error-Agrees, stuck-Agrees, if-Agrees, pb_write-Emits,
}
use study_hours.Nanopb.SizingValues.{
  pb_encode_varint-Agrees, pb_encode_tag-Agrees, pb_encode_tag_for_field-Agrees,
  pb_enc_varint-Agrees, pb_enc_uvarint-Agrees, pb_enc_svarint-Agrees, pb_enc_fixed32-Agrees,
  pb_enc_fixed64-Agrees, pb_enc_bytes-Agrees, pb_enc_string-Agrees,
  pb_enc_fixed_length_bytes-Agrees, pb_encode_submessage-Agrees,
}

-- A size that both passes compute alike, and what is written with it.
known_size-Agrees :
    (size : M (Ostream (List ℕ)) ℕ) (rest : ℕ → Writer) (n : ℕ)
    → ((state : List ℕ) (written : ℕ)
        → size (counting state written) ≡ done n (counting state written))
    → ((dest : List ℕ) (max_size written : ℕ)
        → size (writing dest max_size written) ≡ done n (writing dest max_size written))
    → Agrees (rest n)
    → Agrees (size >>= rest)
known_size-Agrees size rest n counts writes (inl (bs, p)) = inl (
  bs,
  record {
    sizes = λ state written h. rw (counts state written) (p.sizes state written h);
    writes = λ dest max_size written h small.
        rw (writes dest max_size written) (p.writes dest max_size written h small);
    overflows = λ dest max_size written fits over h.
        let (s, e) = p.overflows dest max_size written fits over h in
        (s, rw (writes dest max_size written) e);
  },
)
known_size-Agrees size rest n counts writes (inr p) = inr (record {
  refuses = λ state written s h e. p.refuses state written s h (rw (counts state written) at e);
})

module _ (env : EncodeEnv (List ℕ)) (mem : Mem) (encode : List Field → ℕ → Writer)
    (agree : (fields : List Field) (src : ℕ) → Agrees (encode fields src)) where
  pub pb_enc_submessage-Agrees :
      (field : Field) (src : ℕ) → Agrees (pb_enc_submessage env mem encode field src)
  unfolding pb_enc_submessage
  pb_enc_submessage-Agrees field src = go field.ptr
    where
      go :
          (ptr : FieldPtr)
          → Agrees (elim ptr as (λ _. Writer) [
            | submsg k ↦ pb_encode_submessage (encode (env.descriptors k) src)
            | null ↦ return_error invalid_field_descriptor
            | default_value _ ↦ λ s. stuck
          ])
      go (submsg k) = pb_encode_submessage-Agrees _ (agree (env.descriptors k) src)
      go null = return_error-Agrees invalid_field_descriptor
      go (default_value _) = stuck-Agrees

  pub encoder-Agrees : (field : Field) (src : ℕ) → Agrees (encoder env mem encode field src)
  unfolding encoder
  encoder-Agrees field src =
      let t = pb_ltype field.type in
      if-Agrees (t == Ltype.varint) _ _ (pb_enc_varint-Agrees mem field src) (
        if-Agrees (t == Ltype.uvarint) _ _ (pb_enc_uvarint-Agrees mem field src) (
          if-Agrees (t == Ltype.svarint) _ _ (pb_enc_svarint-Agrees mem field src) (
            if-Agrees (t == Ltype.fixed32) _ _ (pb_enc_fixed32-Agrees mem field src) (
              if-Agrees (t == Ltype.fixed64) _ _ (pb_enc_fixed64-Agrees mem field src) (
                if-Agrees (t == Ltype.bytes) _ _ (pb_enc_bytes-Agrees mem field src) (
                  if-Agrees (t == Ltype.string) _ _ (pb_enc_string-Agrees mem field src) (
                    if-Agrees (t == Ltype.submessage) _ _ (pb_enc_submessage-Agrees field src) (
                      if-Agrees (t == Ltype.fixed_length_bytes) _ _
                        (pb_enc_fixed_length_bytes-Agrees mem field src) stuck-Agrees))))))))

  pub encode_items-Agrees :
      (field : Field) (count p : ℕ) → Agrees (encode_items env mem encode field count p)
  unfolding encode_items
  encode_items-Agrees field zero p = return-Agrees
  encode_items-Agrees field (suc count) p =
      >>-Agrees _ _ (encoder-Agrees field p) (encode_items-Agrees field count (p + field.data_size))

  encode_tagged_items-Agrees :
      (field : Field) (count p : ℕ) → Agrees (encode_tagged_items env mem encode field count p)
  unfolding encode_tagged_items
  encode_tagged_items-Agrees field zero p = return-Agrees
  encode_tagged_items-Agrees field (suc count) p =
      >>-Agrees _ _ (pb_encode_tag_for_field-Agrees field) (
        >>-Agrees _ _ (encoder-Agrees field _)
          (encode_tagged_items-Agrees field count (p + field.data_size)))

  -- Items that take `width` bytes each.
  module _ (field : Field) (width : ℕ)
      (wide : (src : ℕ)
        → (bs : List ℕ) × Emits (encoder env mem encode field src) bs × (length bs ≡ width)) where
    wide_items :
        (count p : ℕ)
        → (bs : List ℕ) × Emits (encode_items env mem encode field count p) bs
          × (length bs ≡ width * count)
    unfolding encode_items
    wide_items zero p = ([], return-Emits, omega arith)
    wide_items (suc count) p =
        let (bs, q, l) = wide p in
        let (cs, r, k) = wide_items count (p + field.data_size) in
        (bs ++ cs, >>-Emits _ _ bs cs q r, omega (arith, l, k, length-append bs cs))

  -- The data of a packed array, behind its size.
  module _ (field : Field) (count p_data : ℕ) where
    write_items-Emits :
        (n : ℕ) (bs : List ℕ)
        → Emits (encode_items env mem encode field count p_data) bs
        → n ≡ u64 (0 + length bs)
        → Emits (write_items env mem encode field count p_data n) bs
    unfolding pb_write
    write_items-Emits n bs p e = record {
      sizes = λ state written h. rw e (ground arith);
      writes = λ dest max_size written h small. p.writes dest max_size written h small;
      overflows =
          λ dest max_size written fits over h. p.overflows dest max_size written fits over h;
    }

    abbrev packed_rest : ℕ → Writer
    packed_rest size = pb_encode_varint size >> write_items env mem encode field count p_data size

    packed_rest-Agrees :
        (n : ℕ) (bs : List ℕ)
        → Emits (encode_items env mem encode field count p_data) bs
        → n ≡ u64 (0 + length bs)
        → Agrees (packed_rest n)
    packed_rest-Agrees n bs p e =
        >>-Agrees _ _ (pb_encode_varint-Agrees n) (inl (bs, write_items-Emits n bs p e))

    size_from-done :
        (r : Res (Ostream (List ℕ)) (Unit {0})) (start : Ostream (List ℕ)) (rest : ℕ → Writer)
        (s : Ostream (List ℕ))
        → and_then (size_from env mem encode r start) rest ≡ done tt s
        → (sub : Ostream (List ℕ)) × (r ≡ done tt sub)
    size_from-done (done _ sub) start rest s h = (sub, refl)
    size_from-done (failed sub) start rest s h = cc
    size_from-done stuck start rest s h = cc

    computed_size-Agrees :
        (n width : ℕ)
        → ((s : Ostream (List ℕ)) → packed_size env mem encode field count p_data s ≡ done n s)
        → n ≡ u64 (width * count)
        → ((bs : List ℕ) × Emits (encode_items env mem encode field count p_data) bs
            × (length bs ≡ width * count))
        → Agrees (packed_size env mem encode field count p_data >>= packed_rest)
    computed_size-Agrees n width known e (bs, p, l) =
        known_size-Agrees _ packed_rest n (λ state written. known _)
          (λ dest max_size written. known _) (packed_rest-Agrees n bs p (rw l (e ∙ ground arith)))

    counted_size-Agrees :
        ((s : Ostream (List ℕ))
          → packed_size env mem encode field count p_data s
            ≡ size_from env mem encode
                (encode_items env mem encode field count p_data (sizing_stream s.state))
                s)
        → Agrees (encode_items env mem encode field count p_data)
        → Agrees (packed_size env mem encode field count p_data >>= packed_rest)
    counted_size-Agrees by_items (inl (bs, p)) =
        known_size-Agrees _ packed_rest (u64 (0 + length bs))
          (λ state written. by_items _ ∙ rw (p.sizes state 0 (omega arith)))
          (λ dest max_size written. by_items _ ∙ rw (p.sizes dest 0 (omega arith)))
          (packed_rest-Agrees _ bs p refl)
    counted_size-Agrees by_items (inr p) = inr (record {
      refuses = λ state written s h e.
          let (sub, first) =
            size_from-done (encode_items env mem encode field count p_data (counting state 0))
              (counting state written) packed_rest s
              (rw (by_items (counting state written)) at e) in
          p.refuses state 0 sub (omega arith) first;
    })

  fixed32-encoder :
      (field : Field)
      → pb_ltype field.type ≡ Ltype.fixed32
      → (src : ℕ) → (bs : List ℕ) × Emits (encoder env mem encode field src) bs × (length bs ≡ 4)
  unfolding encoder pb_enc_fixed32 pb_encode_fixed32
  fixed32-encoder field e src = rw e (_, pb_write-Emits _, refl)

  fixed64-encoder :
      (field : Field)
      → pb_ltype field.type ≡ Ltype.fixed64
      → (src : ℕ) → (bs : List ℕ) × Emits (encoder env mem encode field src) bs × (length bs ≡ 8)
  unfolding encoder pb_enc_fixed64 pb_encode_fixed64
  fixed64-encoder field e src = rw e (_, pb_write-Emits _, refl)

  module _ (field : Field) (count p_data : ℕ) where
    sized_items-Agrees :
        Agrees (packed_size env mem encode field count p_data >>= packed_rest field count p_data)
    sized_items-Agrees = elim (Bool-cases (pb_ltype field.type == Ltype.fixed32)) [
      | inl e ↦
          computed_size-Agrees field count p_data (u64 (4 * count)) 4
            (λ s. unfold packed_size in rw e) refl
            (wide_items field 4 (fixed32-encoder field (ground arith)) count p_data)
      | inr e ↦ elim (Bool-cases (pb_ltype field.type == Ltype.fixed64)) [
        | inl f ↦
            computed_size-Agrees field count p_data (u64 (8 * count)) 8
              (λ s. unfold packed_size in rw (e, f)) refl
              (wide_items field 8 (fixed64-encoder field (ground arith)) count p_data)
        | inr f ↦
            counted_size-Agrees field count p_data (λ s. unfold packed_size in rw (e, f))
              (encode_items-Agrees field count p_data)
      ]
    ]

    encode_packed-Agrees : Agrees (encode_packed env mem encode field p_data count)
    encode_packed-Agrees =
        unfold encode_packed in >>-Agrees _ _ (pb_encode_tag-Agrees 2 field.tag) sized_items-Agrees

    pub encode_array-Agrees : Agrees (encode_array env mem encode field p_data count)
    unfolding encode_array
    encode_array-Agrees = if-Agrees (count == 0) _ _ return-Agrees (
        if-Agrees (not (pb_atype field.type == Atype.pointer) && ltb field.array_size count) _ _
          (return_error-Agrees array_max_size_exceeded)
          (if-Agrees (leb (pb_ltype field.type) Ltype.last_packable) _ _ encode_packed-Agrees
            (encode_tagged_items-Agrees field count p_data)))
