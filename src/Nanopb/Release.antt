-- ===== src/Nanopb/Release.antt =====
-- pb_decode.c: `pb_release` and what it calls. `fuel` bounds how deep messages nest and how long
-- a list of extensions is.
use study_hours.Common.{
  ℕ, zero, suc, ◌+◌, ◌==◌, ltb, if◌then◌else◌, Bool, true, false, not, ◌&&◌, ◌||◌, Option, none,
  some, List, length,
}
use study_hours.Nanopb.Run.{done, stuck, M, ◌>>=◌, ◌>>◌, return, invalid_union_tag, iterator_error}
use study_hours.Nanopb.Ltype
use study_hours.Nanopb.Htype
use study_hours.Nanopb.Atype
use study_hours.Nanopb.Memory.{store, load_pointer}
use study_hours.Nanopb.Field.{
  Field, FieldPtr, null, submsg, default_value, FieldIter, here, pb_field_iter_begin,
  pb_field_iter_next, pb_field_iter_find, pb_ltype, pb_htype, pb_atype,
}
use study_hours.Nanopb.World.{
  Allocator, World, modify, peek, error, get_size, set_size, free_pointer,
}
use study_hours.Nanopb.Defaults.{is_data, iter_from_extension}

abbrev pub Step {ℓ κ} : Type ℓ → Type κ → Type (ℓ ⊔ κ)
Step S H = M (World S H) (Unit {0})

abbrev pub is_pointer_array : Field → Bool
is_pointer_array field =
    (pb_htype field.type == Htype.repeated)
    && ((pb_ltype field.type == Ltype.string) || (pb_ltype field.type == Ltype.bytes))

module _ {ℓ κ} {S : Type ℓ} {H : Type κ} (alloc : Allocator H) (descriptors : ℕ → List Field)
    (extension_field : ℕ → Field) where
  -- `release` is `pb_release` and `single` is `pb_release_single_field`, one level down.
  module _ (fuel : ℕ) (release : List Field → ℕ → Step S H) (single : FieldIter → Step S H) where
    unfoldable pub release_extensions : ℕ → ℕ → Step S H
    release_extensions zero extension w = stuck
    release_extensions (suc rounds) extension w =
        let rest = (do
          λ v. single (iter_from_extension extension_field extension v.mem) v
          next ← peek (λ m. load_pointer m (extension + 16))
          release_extensions rounds next) in
        if extension == 0 then done tt w else rest w

    -- `while (count--) { pb_release(…, pItem); pItem += data_size; }`
    unfoldable pub release_items : List Field → ℕ → ℕ → ℕ → Step S H
    release_items fields data_size zero item w = done tt w
    release_items fields data_size (suc count) item w =
        (release fields item >> release_items fields data_size count (item + data_size)) w

    -- A count that the array cannot hold is cut.
    abbrev pub item_count : FieldIter → M (World S H) ℕ
    item_count iter =
        let field = here iter in
        let static = pb_atype field.type == Atype.static in
        if not (pb_htype field.type == Htype.repeated)
        then return 1
        else if static && is_data iter.p_size iter.p_data
        then return field.array_size
        else (get_size iter.p_size >>= λ count.
            return (if static && ltb field.array_size count then field.array_size else count))

    abbrev pub release_at : FieldPtr → ℕ → ℕ → ℕ → Step S H
    release_at (submsg k) data_size count item = release_items (descriptors k) data_size count item
    release_at null data_size count item = λ w. stuck
    release_at (default_value _) data_size count item = λ w. stuck

    abbrev pub release_submessages : FieldIter → Step S H
    release_submessages iter = do
      let field = here iter
      item ← peek (λ m.
          if pb_atype field.type == Atype.pointer then load_pointer m iter.p_data else iter.p_data)
      count ← item_count iter
      if item == 0 then return tt else release_at field.ptr field.data_size count item

    abbrev pub release_contents : FieldIter → Step S H
    release_contents iter =
        if pb_ltype (here iter).type == Ltype.extension
        then (peek (λ m. load_pointer m iter.p_data) >>= λ first. release_extensions fuel first)
        else if pb_ltype (here iter).type == Ltype.submessage
        then release_submessages iter
        else return tt

  abbrev pub free_entry : ℕ → Step S H → Step S H
  free_entry item rest = do
    ptr ← peek (λ m. load_pointer m item)
    free_pointer alloc ptr
    modify (store 8 item 0)
    rest

  -- `while (count--) { pb_free(*pItem); *pItem++ = NULL; }`
  unfoldable pub free_entries : ℕ → ℕ → Step S H
  free_entries zero item w = done tt w
  free_entries (suc count) item w = free_entry item (free_entries count (item + 8)) w

  abbrev pub free_array_entries : FieldIter → Step S H
  free_array_entries iter = do
    item ← peek (λ m. load_pointer m iter.p_data)
    count ← get_size iter.p_size
    free_entries count item

  -- The main allocation of a pointer field.
  unfoldable pub release_pointer : FieldIter → Step S H
  unfolding free_entries
  release_pointer iter = do
    if is_pointer_array (here iter) then free_array_entries iter else return tt
    if pb_htype (here iter).type == Htype.repeated then set_size iter.p_size 0 else return tt
    ptr ← peek (λ m. load_pointer m iter.p_data)
    free_pointer alloc ptr
    modify (store 8 iter.p_data 0)

  abbrev pub release_all : (FieldIter → Step S H) → FieldIter → Step S H
  release_all contents iter = do
    contents iter
    if pb_atype (here iter).type == Atype.pointer then release_pointer iter else return tt

  -- A member of a union that is not its current one is left alone.
  abbrev pub release_current : (FieldIter → Step S H) → FieldIter → Step S H
  release_current contents iter =
      if pb_htype (here iter).type == Htype.oneof
      then (get_size iter.p_size >>= λ current.
          if current == (here iter).tag then release_all contents iter else return tt)
      else release_all contents iter

  unfoldable pub release_fields : ℕ → (FieldIter → Step S H) → FieldIter → Step S H
  release_fields zero single iter w = stuck
  release_fields (suc rounds) single iter w =
      let next = pb_field_iter_next iter in
      let rest = release_fields rounds single next.0 in
      (single iter >> (if next.1 then rest else return tt)) w

  abbrev pub release_message : (FieldIter → Step S H) → List Field → ℕ → Step S H
  release_message single fields dest_struct =
      let begin = pb_field_iter_begin fields dest_struct in
      if dest_struct == 0
      then return tt
      else if begin.1
      then release_fields (length fields) single begin.0
      else return tt

  unfoldable pub pb_release_single_field : ℕ → FieldIter → Step S H
  unfolding release_extensions release_items release_fields release_pointer
  pb_release_single_field zero iter w = stuck
  pb_release_single_field (suc fuel) iter w =
      let single = pb_release_single_field fuel in
      release_current (release_contents fuel (release_message single) single) iter w

  unfoldable pub pb_release : ℕ → List Field → ℕ → Step S H
  unfolding pb_release_single_field
  pb_release fuel fields dest_struct =
      release_message (pb_release_single_field fuel) fields dest_struct

  -- `pb_release_union_field`, with the iterator that it leaves.
  abbrev pub find_again : ℕ → Option (FieldIter × Bool) → M (World S H) FieldIter
  find_again tag none w = stuck
  find_again tag (some (iter, true)) w = done iter w
  find_again tag (some (iter, false)) w = error iterator_error w

  abbrev pub release_old : ℕ → ℕ → Option (FieldIter × Bool) → M (World S H) FieldIter
  release_old fuel new_tag none w = stuck
  release_old fuel new_tag (some (iter, false)) w = error invalid_union_tag w
  release_old fuel new_tag (some (iter, true)) w =
      (pb_release_single_field fuel iter >> find_again new_tag (pb_field_iter_find iter new_tag)) w

  unfoldable pub pb_release_union_field : ℕ → FieldIter → M (World S H) FieldIter
  unfolding pb_release_single_field
  pb_release_union_field fuel iter = do
    old_tag ← get_size iter.p_size
    let new_tag = (here iter).tag
    if (old_tag == 0) || (old_tag == new_tag)
        then return iter
        else release_old fuel new_tag (pb_field_iter_find iter old_tag)
