-- ===== src/Nanopb/SizingValues.antt =====
-- The two passes agree on every helper of pb_encode.c that writes a value, on the encoders of
-- `PB_ENCODERS`, and on submessages.
use study_hours.Common.{
  ℕ, zero, suc, ◌+◌, ◌≡◌, inl, inr, refl, ap, arith, u8, u64, ltb, leb, ◌==◌, ==_self, ltb-false,
  lt→ltb, ◌&&◌, ◌||◌, Option, none, some, List, [], ◌∷◌, length,
}
use mathlib.Core.Path.{subst}
use study_hours.Nanopb.Run.{
  Res, done, failed, stuck, ◌>>◌, stream_full, invalid_field_type, invalid_data_size,
  bytes_size_exceeded,
}
use study_hours.Nanopb.Ltype
use study_hours.Nanopb.Atype
use study_hours.Nanopb.Memory.{Mem, load_bytes, load_size}
use study_hours.Nanopb.Field.{Field, pb_ltype, pb_atype}
use study_hours.Nanopb.Ostream.{
  Ostream, pb_write, fill_buffer, unset_last, write_buffer, pb_encode_varint, pb_encode_svarint,
  pb_encode_fixed32, pb_encode_fixed64, pb_encode_tag, pb_encode_string,
}
use study_hours.Nanopb.Encoder.{
  pb_encode_tag_for_field, has_int_size, pb_enc_varint, pb_enc_uvarint, pb_enc_svarint,
  pb_enc_fixed32, pb_enc_fixed64, pb_enc_bytes, pb_enc_string, pb_enc_fixed_length_bytes,
  write_submessage, pb_encode_submessage, after_sizing,
}
use study_hours.Nanopb.Sizing.{
  counting, writing, Writer, Emits, Agrees, >>-Agrees, return_error-Agrees, if-Agrees,
  pb_write-Emits,
}

length-unset_last : (bs : List ℕ) → length (unset_last bs) ≡ length bs
unfolding unset_last
length-unset_last [] = refl
length-unset_last (b ∷ []) = refl
length-unset_last (b ∷ c ∷ bs) = ap suc (length-unset_last (c ∷ bs))

write_of_length-Emits : (bs : List ℕ) (n : ℕ) → length bs ≡ n → Emits (pb_write bs n) bs
write_of_length-Emits bs n e = rw (← e) (pb_write-Emits bs)

write_buffer-Agrees : (o : Option (List ℕ)) → Agrees (write_buffer o)
write_buffer-Agrees none = inr (record { refuses = λ state written s h e. cc })
write_buffer-Agrees (some bs) =
    let p = write_of_length-Emits (unset_last bs) (length bs) (length-unset_last bs) in
    inl (unset_last bs, record { sizes = p.sizes; writes = p.writes; overflows = p.overflows })

pub pb_encode_varint-Agrees : (v : ℕ) → Agrees (pb_encode_varint v)
unfolding pb_encode_varint
pb_encode_varint-Agrees v =
    if-Agrees (leb v 0x7F) (pb_write (u8 v ∷ []) 1) (write_buffer (fill_buffer 10 v))
      (inl (u8 v ∷ [], pb_write-Emits (u8 v ∷ []))) (write_buffer-Agrees (fill_buffer 10 v))

pub pb_encode_svarint-Agrees : (v : ℕ) → Agrees (pb_encode_svarint v)
unfolding pb_encode_svarint
pb_encode_svarint-Agrees v = pb_encode_varint-Agrees _

pub pb_encode_fixed32-Agrees : (v : ℕ) → Agrees (pb_encode_fixed32 v)
unfolding pb_encode_fixed32
pb_encode_fixed32-Agrees v = inl (_, pb_write-Emits _)

pub pb_encode_fixed64-Agrees : (v : ℕ) → Agrees (pb_encode_fixed64 v)
unfolding pb_encode_fixed64
pb_encode_fixed64-Agrees v = inl (_, pb_write-Emits _)

pub pb_encode_tag-Agrees : (w n : ℕ) → Agrees (pb_encode_tag w n)
unfolding pb_encode_tag
pb_encode_tag-Agrees w n = pb_encode_varint-Agrees _

pub pb_encode_string-Agrees : (bs : List ℕ) → Agrees (pb_encode_string bs (length bs))
unfolding pb_encode_string
pb_encode_string-Agrees bs =
    >>-Agrees (pb_encode_varint (length bs)) (pb_write bs (length bs))
      (pb_encode_varint-Agrees (length bs)) (inl (bs, pb_write-Emits bs))

pub pb_encode_tag_for_field-Agrees : (field : Field) → Agrees (pb_encode_tag_for_field field)
unfolding pb_encode_tag_for_field
pb_encode_tag_for_field-Agrees field =
    let t = pb_ltype field.type in
    if-Agrees (leb t Ltype.svarint) _ _ (pb_encode_tag-Agrees 0 field.tag) (
      if-Agrees (t == Ltype.fixed32) _ _ (pb_encode_tag-Agrees 5 field.tag) (
        if-Agrees (t == Ltype.fixed64) _ _ (pb_encode_tag-Agrees 1 field.tag) (
          if-Agrees (leb t Ltype.submessage || (t == Ltype.fixed_length_bytes)) _ _
            (pb_encode_tag-Agrees 2 field.tag) (return_error-Agrees invalid_field_type))))

length-load_bytes : (n : ℕ) (mem : Mem) (a : ℕ) → length (load_bytes n mem a) ≡ n
unfolding load_bytes
length-load_bytes zero mem a = refl
length-load_bytes (suc n) mem a = ap suc (length-load_bytes n mem (a + 1))

load_bytes-Agrees : (n : ℕ) (mem : Mem) (a : ℕ) → Agrees (pb_encode_string (load_bytes n mem a) n)
load_bytes-Agrees n mem a =
    subst (λ t. Agrees (pb_encode_string (load_bytes n mem a) t)) (length-load_bytes n mem a)
      (pb_encode_string-Agrees (load_bytes n mem a))

module _ (mem : Mem) (field : Field) (src : ℕ) where
  pub pb_enc_varint-Agrees : Agrees (pb_enc_varint mem field src)
  unfolding pb_enc_varint
  pb_enc_varint-Agrees =
      if-Agrees (has_int_size field.data_size) _ _ (pb_encode_varint-Agrees _)
        (return_error-Agrees invalid_data_size)

  pub pb_enc_uvarint-Agrees : Agrees (pb_enc_uvarint mem field src)
  unfolding pb_enc_uvarint
  pb_enc_uvarint-Agrees =
      if-Agrees (has_int_size field.data_size) _ _ (pb_encode_varint-Agrees _)
        (return_error-Agrees invalid_data_size)

  pub pb_enc_svarint-Agrees : Agrees (pb_enc_svarint mem field src)
  unfolding pb_enc_svarint
  pb_enc_svarint-Agrees =
      if-Agrees (has_int_size field.data_size) _ _ (pb_encode_svarint-Agrees _)
        (return_error-Agrees invalid_data_size)

  pub pb_enc_fixed32-Agrees : Agrees (pb_enc_fixed32 mem field src)
  unfolding pb_enc_fixed32
  pb_enc_fixed32-Agrees = pb_encode_fixed32-Agrees _

  pub pb_enc_fixed64-Agrees : Agrees (pb_enc_fixed64 mem field src)
  unfolding pb_enc_fixed64
  pb_enc_fixed64-Agrees = pb_encode_fixed64-Agrees _

  pub pb_enc_bytes-Agrees : Agrees (pb_enc_bytes mem field src)
  unfolding pb_enc_bytes
  pb_enc_bytes-Agrees = if-Agrees (src == 0) _ _ (pb_encode_string-Agrees []) (
      if-Agrees
        ((pb_atype field.type == Atype.static) && ltb field.data_size (load_size mem src + 4)) _ _
        (return_error-Agrees bytes_size_exceeded)
        (load_bytes-Agrees (load_size mem src) mem (src + 4)))

  pub pb_enc_string-Agrees : Agrees (pb_enc_string mem field src)
  unfolding pb_enc_string
  pb_enc_string-Agrees = load_bytes-Agrees _ mem src

  pub pb_enc_fixed_length_bytes-Agrees : Agrees (pb_enc_fixed_length_bytes mem field src)
  unfolding pb_enc_fixed_length_bytes
  pb_enc_fixed_length_bytes-Agrees = load_bytes-Agrees field.data_size mem src

module _ (encode : Writer) where
  write_submessage-Emits :
      (bs : List ℕ) → Emits encode bs → Emits (write_submessage encode (u64 (0 + length bs))) bs
  unfolding write_submessage pb_write
  write_submessage-Emits bs p = record {
    sizes = λ state written h. ground arith;
    writes = λ dest max_size written h small.
        let size : u64 (0 + length bs) ≡ length bs = omega arith in
        let bare : 0 + length bs ≡ length bs = omega arith in
        let no_wrap : u64 (written + length bs) ≡ written + length bs = omega arith in
        rw
          (
            size,
            no_wrap,
            ltb-false max_size (written + length bs) h,
            p.writes dest (length bs) 0 (omega arith) (omega arith),
          )
          (rw (bare, ==_self (length bs), no_wrap));
    overflows = λ dest max_size written fits over h.
        let size : u64 (0 + length bs) ≡ length bs = omega arith in
        let no_wrap : u64 (written + length bs) ≡ written + length bs = omega arith in
        (
          record (writing dest max_size written) { errmsg = some stream_full },
          rw (size, no_wrap, lt→ltb max_size (written + length bs) over),
        );
  }

  after_sizing-done :
      (r : Res (Ostream (List ℕ)) (Unit {0})) (start s : Ostream (List ℕ))
      → after_sizing encode r start ≡ done tt s
      → (sub : Ostream (List ℕ)) × (r ≡ done tt sub)
  after_sizing-done (done _ sub) start s h = (sub, refl)
  after_sizing-done (failed sub) start s h = cc
  after_sizing-done stuck start s h = cc

  -- Behind a first pass that counts, the call is a size and the second pass.
  sized-Agrees :
      (bs : List ℕ)
      → Emits encode bs
      → Agrees
          (pb_encode_varint (u64 (0 + length bs)) >> write_submessage encode (u64 (0 + length bs)))
      → Agrees (pb_encode_submessage encode)
  unfolding pb_encode_submessage
  sized-Agrees bs p (inl (cs, q)) = inl (
    cs,
    record {
      sizes = λ state written h. rw (p.sizes state 0 (omega arith)) (q.sizes state written h);
      writes = λ dest max_size written h small.
          rw (p.sizes dest 0 (omega arith)) (q.writes dest max_size written h small);
      overflows = λ dest max_size written fits over h.
          let (s, e) = q.overflows dest max_size written fits over h in
          (s, rw (p.sizes dest 0 (omega arith)) e);
    },
  )
  sized-Agrees bs p (inr q) = inr (record {
    refuses = λ state written s h e.
        q.refuses state written s h (rw (p.sizes state 0 (omega arith)) at e);
  })

  -- `pb_encode_submessage` never finds that the size changed between its passes.
  pub pb_encode_submessage-Agrees : Agrees encode → Agrees (pb_encode_submessage encode)
  pb_encode_submessage-Agrees (inl (bs, p)) =
      sized-Agrees bs p
        (>>-Agrees _ _ (pb_encode_varint-Agrees _) (inl (bs, write_submessage-Emits bs p)))
  pb_encode_submessage-Agrees (inr p) = inr (record {
    refuses = λ state written s h e.
        let (sub, first) =
          after_sizing-done (encode (counting state 0)) (counting state written) s
            (unfold pb_encode_submessage in e) in
        p.refuses state 0 sub (omega arith) first;
  })
