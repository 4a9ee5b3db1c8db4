-- ===== src/Nanopb/Field.antt =====
-- `pb_field_t` of pb.h, and the field iterator of pb_common.c.
use study_hours.Common.{
  ℕ, zero, suc, ◌+◌, ◌-◌, ◌*◌, ◌/◌, ◌%◌, ◌^◌, u64, ◌==◌, if◌then◌else◌, Bool, true, false, not,
  ◌&&◌, List, length, get_or, Option, none, some,
}
use study_hours.Nanopb.Ltype
use study_hours.Nanopb.Htype
use study_hours.Nanopb.Atype

-- The `ptr` member: the descriptor array of a submessage, named by a number, or the bytes of a
-- default value.
pub data FieldPtr : Type 0 where
  null : FieldPtr
  submsg : ℕ → FieldPtr
  default_value : List ℕ → FieldPtr

-- `size_offset` is signed in C. It is only added to pointers, and is given here modulo 2 ^ 64.
pub record Field : Type 0 where
  pub tag : ℕ
  pub type : ℕ
  pub data_offset : ℕ
  pub size_offset : ℕ
  pub data_size : ℕ
  pub array_size : ℕ
  pub ptr : FieldPtr

-- `PB_LAST_FIELD`
abbrev pub last_field : Field
last_field = record {
  tag = 0;
  type = 0;
  data_offset = 0;
  size_offset = 0;
  data_size = 0;
  array_size = 0;
  ptr = FieldPtr.null;
}

-- `PB_LTYPE(x)`, `PB_HTYPE(x)` and `PB_ATYPE(x)`: masks 0x0F, 0x30 and 0xC0.
abbrev pub pb_ltype : ℕ → ℕ
pb_ltype type = type % 16

abbrev pub pb_htype : ℕ → ℕ
pb_htype type = type / 16 % 4 * 16

abbrev pub pb_atype : ℕ → ℕ
pb_atype type = type / 64 % 4 * 64

-- `PB_SIZE_MAX` of a 32 bit `pb_size_t`.
abbrev pub pb_size_max : ℕ
pb_size_max = 2 ^ 32 - 1

-- Where `p_size` points: into memory, or to the local `fixed_count_size` of `pb_decode_noinit`.
pub data SizePtr : Type 0 where
  at : ℕ → SizePtr
  fixed_count_size : SizePtr

-- `pb_field_iter_t`. `pos` is the index of `iter->pos` in the array `start`.
pub record FieldIter : Type 0 where
  pub start : List Field
  pub pos : ℕ
  pub required_field_index : ℕ
  pub dest_struct : ℕ
  pub p_data : ℕ
  pub p_size : SizePtr

-- An array ends in `PB_LAST_FIELD`, which the list leaves out.
abbrev pub field_at : List Field → ℕ → Field
field_at fields pos = get_or fields pos last_field

abbrev pub here : FieldIter → Field
here iter = field_at iter.start iter.pos

abbrev pub begin_at : List Field → ℕ → FieldIter
begin_at fields dest_struct =
    let p_data = u64 (dest_struct + (field_at fields 0).data_offset) in
    record {
      start = fields;
      pos = 0;
      required_field_index = 0;
      dest_struct = dest_struct;
      p_data = p_data;
      p_size = at (u64 (p_data + (field_at fields 0).size_offset));
    }

unfoldable pub pb_field_iter_begin : List Field → ℕ → FieldIter × Bool
pb_field_iter_begin fields dest_struct =
    (begin_at fields dest_struct, not ((field_at fields 0).tag == 0))

-- `prev_size`: how far the pointers move over a field.
unfoldable pub advance_of : Field → ℕ
advance_of prev =
    if (pb_atype prev.type == Atype.static) && (pb_htype prev.type == Htype.repeated)
    then u64 (prev.data_size * prev.array_size)
    else if pb_atype prev.type == Atype.pointer
    then 8
    else prev.data_size

-- The next member of a union lies where the one before it does.
unfoldable pub in_same_union : Field → Field → Bool
in_same_union prev next =
    (pb_htype prev.type == Htype.oneof)
    && (pb_htype next.type == Htype.oneof)
    && (next.data_offset == pb_size_max)

unfoldable pub pb_field_iter_next : FieldIter → FieldIter × Bool
unfolding advance_of in_same_union
pb_field_iter_next iter =
    let prev = here iter in
    let next = field_at iter.start (iter.pos + 1) in
    let p_data = u64 (iter.p_data + advance_of prev + next.data_offset) in
    let index =
      if pb_htype prev.type == Htype.required
      then iter.required_field_index + 1
      else iter.required_field_index in
    if prev.tag == 0
    then (iter, false)
    else if next.tag == 0
    then (begin_at iter.start iter.dest_struct, false)
    else if in_same_union prev next
    then (record iter { pos = iter.pos + 1 }, true)
    else (
      record iter {
        pos = iter.pos + 1;
        required_field_index = index;
        p_data = p_data;
        p_size = at (u64 (p_data + next.size_offset));
      },
      true,
    )

-- The `do … while (iter->pos != start)` loop of `pb_field_iter_find` and of
-- `find_extension_field`; `none` if the fuel runs out.
unfoldable pub search_from : ℕ → (Field → Bool) → ℕ → FieldIter → Option (FieldIter × Bool)
search_from zero wanted start iter = none
search_from (suc fuel) wanted start iter =
    let iter' = (pb_field_iter_next iter).0 in
    let rest = search_from fuel wanted start iter' in
    if wanted (here iter)
    then some (iter, true)
    else if iter'.pos == start
    then some (iter', false)
    else rest

-- One round more than there are fields.
abbrev pub search_fields : (Field → Bool) → FieldIter → Option (FieldIter × Bool)
search_fields wanted iter = search_from (length iter.start + 1) wanted iter.pos iter

abbrev pub has_tag : ℕ → Field → Bool
has_tag tag field = (field.tag == tag) && not (pb_ltype field.type == Ltype.extension)

unfoldable pub pb_field_iter_find : FieldIter → ℕ → Option (FieldIter × Bool)
unfolding search_from pb_field_iter_next
pb_field_iter_find iter tag = search_fields (has_tag tag) iter

abbrev pub is_extension : Field → Bool
is_extension field = pb_ltype field.type == Ltype.extension

unfoldable pub find_extension_field : FieldIter → Option (FieldIter × Bool)
unfolding search_from pb_field_iter_next
find_extension_field iter = search_fields is_extension iter
