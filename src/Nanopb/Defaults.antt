-- ===== src/Nanopb/Defaults.antt =====
-- pb_decode.c: setting the fields of a message to their defaults, before it is decoded. `fuel`
-- bounds how deep messages nest and how long a list of extensions is.
use study_hours.Common.{
  ℕ, zero, suc, ◌+◌, ◌==◌, if◌then◌else◌, Bool, false, not, ◌&&◌, ◌||◌, List, [], ◌∷◌, length, take,
}
use study_hours.Nanopb.Run.{done, stuck, M, ◌>>=◌, ◌>>◌, return}
use study_hours.Nanopb.Ltype
use study_hours.Nanopb.Htype
use study_hours.Nanopb.Atype
use study_hours.Nanopb.Memory.{Mem, store, store_bytes, store_zeros, write_byte, load_pointer}
use study_hours.Nanopb.Field.{
  Field, FieldPtr, null, submsg, default_value, FieldIter, SizePtr, at, fixed_count_size, here,
  begin_at, pb_field_iter_begin, pb_field_iter_next, pb_ltype, pb_htype, pb_atype,
}
use study_hours.Nanopb.World.{World, modify, peek, set_flag, set_size}

-- `iter->pSize == iter->pData`
abbrev pub is_data : SizePtr → ℕ → Bool
is_data (at a) p_data = a == p_data
is_data fixed_count_size p_data = false

-- `iter_from_extension`: the iterator stands on the one field of the extension.
unfoldable pub iter_from_extension : (ℕ → Field) → ℕ → Mem → FieldIter
iter_from_extension extension_field extension m =
    let field = extension_field (load_pointer m extension) in
    let dest = load_pointer m (extension + 8) in
    record (begin_at (field ∷ []) dest) {
      p_data = if pb_atype field.type == Atype.pointer then extension + 8 else dest;
      p_size = at (extension + 24);
    }

module _ {ℓ κ} {S : Type ℓ} {H : Type κ} (descriptors : ℕ → List Field)
    (extension_field : ℕ → Field) where
  -- `init` is `pb_message_set_to_defaults` and `set` is `pb_field_set_to_default`, one level down.
  module _ (fuel : ℕ) (init : List Field → ℕ → M (World S H) (Unit {0}))
      (set : FieldIter → M (World S H) (Unit {0})) where
    abbrev pub init_submessage : FieldPtr → ℕ → M (World S H) (Unit {0})
    init_submessage (submsg k) p_data = init (descriptors k) p_data
    init_submessage null p_data = λ w. stuck
    init_submessage (default_value _) p_data = λ w. stuck

    abbrev pub init_scalar : FieldPtr → Field → ℕ → M (World S H) (Unit {0})
    init_scalar (default_value bytes) field p_data =
        modify (store_bytes p_data (take field.data_size bytes))
    init_scalar null field p_data = modify (store_zeros field.data_size p_data)
    init_scalar (submsg _) field p_data = λ w. stuck

    abbrev pub init_data : Field → ℕ → M (World S H) (Unit {0})
    init_data field p_data =
        if pb_ltype field.type == Ltype.submessage
        then init_submessage field.ptr p_data
        else init_scalar field.ptr field p_data

    abbrev pub has_count : Field → Bool
    has_count field =
        (pb_htype field.type == Htype.repeated) || (pb_htype field.type == Htype.oneof)

    abbrev pub default_static : FieldIter → M (World S H) (Unit {0})
    default_static iter =
        let field = here iter in
        if (pb_htype field.type == Htype.optional) && not (is_data iter.p_size iter.p_data)
        then (set_flag iter.p_size 0 >> init_data field iter.p_data)
        else if has_count field
        then set_size iter.p_size 0
        else init_data field iter.p_data

    abbrev pub default_pointer : FieldIter → M (World S H) (Unit {0})
    default_pointer iter = do
      modify (store 8 iter.p_data 0)
      if has_count (here iter) then set_size iter.p_size 0 else return tt

    unfoldable pub default_extensions : ℕ → ℕ → M (World S H) (Unit {0})
    default_extensions zero extension w = stuck
    default_extensions (suc rounds) extension w =
        let rest = (do
          modify (write_byte (extension + 24) 0)
          λ v. set (iter_from_extension extension_field extension v.mem) v
          next ← peek (λ m. load_pointer m (extension + 16))
          default_extensions rounds next) in
        if extension == 0 then done tt w else rest w

    unfoldable pub set_field : FieldIter → M (World S H) (Unit {0})
    unfolding default_extensions
    set_field iter =
        let field = here iter in
        let atype = pb_atype field.type in
        if pb_ltype field.type == Ltype.extension
        then (peek (λ m. load_pointer m iter.p_data) >>= λ first. default_extensions fuel first)
        else if atype == Atype.static
        then default_static iter
        else if atype == Atype.pointer
        then default_pointer iter
        else return tt

  unfoldable pub default_fields :
      ℕ → (FieldIter → M (World S H) (Unit {0})) → FieldIter → M (World S H) (Unit {0})
  default_fields zero set iter = λ w. stuck
  default_fields (suc rounds) set iter =
      let next = pb_field_iter_next iter in
      let rest = default_fields rounds set next.0 in
      set iter >> (if next.1 then rest else return tt)

  abbrev pub default_message :
      (FieldIter → M (World S H) (Unit {0})) → List Field → ℕ → M (World S H) (Unit {0})
  default_message set fields dest =
      let begin = pb_field_iter_begin fields dest in
      if begin.1 then default_fields (length fields) set begin.0 else return tt

  unfoldable pub pb_field_set_to_default : ℕ → FieldIter → M (World S H) (Unit {0})
  unfolding set_field default_fields
  pb_field_set_to_default zero iter = λ w. stuck
  pb_field_set_to_default (suc fuel) iter =
      set_field fuel (default_message (pb_field_set_to_default fuel)) (pb_field_set_to_default fuel)
        iter

  unfoldable pub pb_message_set_to_defaults : ℕ → List Field → ℕ → M (World S H) (Unit {0})
  unfolding pb_field_set_to_default
  pb_message_set_to_defaults fuel fields dest =
      default_message (pb_field_set_to_default fuel) fields dest
