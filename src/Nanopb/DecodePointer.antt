-- ===== src/Nanopb/DecodePointer.antt =====
-- pb_decode.c: fields behind pointers, callback fields, and `decode_field`.
use study_hours.Common.{
  ℕ, zero, suc, ◌+◌, ◌-◌, ◌*◌, ◌/◌, u32, u64, ltb, ◌==◌, if◌then◌else◌, Bool, true, false, not,
  ◌&&◌, ◌||◌, some, List, length,
}
use study_hours.Nanopb.Run.{
  Res, done, failed, stuck, M, ◌>>=◌, ◌>>◌, and_then, return, invalid_field_type,
  too_many_array_entries, callback_failed,
}
use study_hours.Nanopb.Ltype
use study_hours.Nanopb.Htype
use study_hours.Nanopb.Atype
use study_hours.Nanopb.Memory.{store, store_zeros, load_pointer}
use study_hours.Nanopb.Field.{Field, FieldIter, here, pb_size_max, pb_ltype, pb_htype, pb_atype}
use study_hours.Nanopb.Istream.{Istream, pb_istream_from_buffer}
use study_hours.Nanopb.Reader.{pb_skip_field, read_raw_value, wt_string}
use study_hours.Nanopb.World.{
  World, on_stream, modify, peek, error, get_size, set_size, allocate_field,
}
use study_hours.Nanopb.Release.{Step, pb_release_single_field, pb_release_union_field}
use study_hours.Nanopb.DecodeField.{
  DecodeEnv, open_substream, close_true, close_false, set_to_defaults, decoder, is_packed,
  decode_static_field,
}

module _ {ℓ κ} {S : Type ℓ} {H : Type κ} (env : DecodeEnv S H) (fuel : ℕ)
    (noinit : List Field → ℕ → Step S H) where
  abbrev pub is_string_or_bytes : Field → Bool
  is_string_or_bytes field =
      (pb_ltype field.type == Ltype.string) || (pb_ltype field.type == Ltype.bytes)

  unfoldable pub initialize_pointer_field : ℕ → Field → Step S H
  initialize_pointer_field item field =
      if is_string_or_bytes field
      then modify (store 8 item 0)
      else if pb_ltype field.type == Ltype.submessage
      then (modify (store_zeros field.data_size item)
          >> set_to_defaults env fuel noinit field.ptr item)
      else return tt

  -- A duplicate submessage is released first.
  abbrev pub release_duplicate : FieldIter → ℕ → Step S H
  release_duplicate iter old =
      if (pb_ltype (here iter).type == Ltype.submessage) && not (old == 0)
      then pb_release_single_field env.alloc env.descriptors env.extension_field fuel iter
      else return tt

  abbrev pub set_which : FieldIter → Step S H
  set_which iter =
      if pb_htype (here iter).type == Htype.oneof
      then set_size iter.p_size (here iter).tag
      else return tt

  abbrev pub decode_allocated : FieldIter → Step S H
  decode_allocated iter = do
    let field = here iter
    allocate_field env.alloc iter.p_data field.data_size 1
    item ← peek (λ m. load_pointer m iter.p_data)
    initialize_pointer_field item field
    decoder env fuel noinit field item

  abbrev pub pointer_single : FieldIter → Step S H
  pointer_single iter = do
    old ← peek (λ m. load_pointer m iter.p_data)
    release_duplicate iter old
    set_which iter
    if is_string_or_bytes (here iter)
        then decoder env fuel noinit (here iter) iter.p_data
        else decode_allocated iter

  -- The item at an index of the array behind `iter->pData`.
  abbrev pub decode_item : FieldIter → ℕ → Step S H
  decode_item iter index = do
    let field = here iter
    array ← peek (λ m. load_pointer m iter.p_data)
    let item = u64 (array + u32 (field.data_size * index))
    initialize_pointer_field item field
    decoder env fuel noinit field item

  -- More room, as many entries as could be left in the substream, rounded upwards. A division by
  -- zero has no meaning.
  abbrev pub grow : FieldIter → ℕ → ℕ → M (World S H) ℕ
  grow iter size allocated v =
      let data_size = (here iter).data_size in
      let more = u64 (allocated + ((v.stream.bytes_left - 1) / data_size + 1)) in
      if not (ltb allocated (size + 1))
      then done allocated v
      else if data_size == 0
      then stuck
      else and_then (allocate_field env.alloc iter.p_data data_size more v) (λ _. return more)

  -- The packed loop; its result says whether it ended because the count is at its maximum.
  unfoldable pub pointer_items : ℕ → FieldIter → ℕ → M (World S H) Bool
  unfolding initialize_pointer_field
  pointer_items zero iter allocated w = stuck
  pointer_items (suc rounds) iter allocated w =
      let rest = pointer_items rounds iter in
      let round = (do
        size ← get_size iter.p_size
        allocated' ← grow iter size allocated
        decode_item iter size
        size' ← get_size iter.p_size
        if size' == pb_size_max
            then return true
            else (set_size iter.p_size (u32 (size' + 1)) >> rest allocated')) in
      if w.stream.bytes_left == 0 then done false w else round w

  -- The message set on the parent is overwritten when the substream is closed.
  abbrev pub end_pointer : Istream S → Res (World S H) Bool → Res (World S H) (Unit {0})
  end_pointer parent (done true v) =
      close_false (record parent { errmsg = some too_many_array_entries }) v
  end_pointer parent (done false v) = close_true parent v
  end_pointer parent (failed v) = close_false parent v
  end_pointer parent stuck = stuck

  -- The first allocated size is the count before the substream is made.
  abbrev pub pointer_packed : FieldIter → Step S H
  pointer_packed iter = do
    size ← get_size iter.p_size
    open_substream (λ sub v.
        end_pointer v.stream
          (pointer_items (suc sub.bytes_left) iter size (record v { stream = sub })))

  abbrev pub add_entry : FieldIter → ℕ → Step S H
  add_entry iter size = do
    set_size iter.p_size (u32 (size + 1))
    allocate_field env.alloc iter.p_data (here iter).data_size (size + 1)
    decode_item iter size

  abbrev pub pointer_repeated : FieldIter → Step S H
  pointer_repeated iter = do
    size ← get_size iter.p_size
    if size == pb_size_max then error too_many_array_entries else add_entry iter size

  unfoldable pub decode_pointer_field : ℕ → FieldIter → Step S H
  unfolding pointer_items
  decode_pointer_field wire_type iter =
      let htype = pb_htype (here iter).type in
      if (htype == Htype.required) || (htype == Htype.optional) || (htype == Htype.oneof)
      then pointer_single iter
      else if htype == Htype.repeated
      then (if is_packed env fuel noinit wire_type (here iter)
          then pointer_packed iter
          else pointer_repeated iter)
      else error invalid_field_type

  -- The `do … while (substream.bytes_left)` loop.
  unfoldable pub callback_loop : ℕ → Step S H → Step S H
  callback_loop zero call w = stuck
  callback_loop (suc rounds) call w =
      let rest = callback_loop rounds call in
      (call >> (λ v. if v.stream.bytes_left == 0 then done tt v else rest v)) w

  abbrev pub end_callback : Istream S → Res (World S H) (Unit {0}) → Res (World S H) (Unit {0})
  end_callback parent (done _ v) = close_true parent v
  end_callback parent (failed v) = error callback_failed (record v { stream = parent })
  end_callback parent stuck = stuck

  abbrev pub callback_string : Step S H → Step S H
  callback_string call = open_substream (λ sub v.
      end_callback v.stream (callback_loop env.callback_rounds call (record v { stream = sub })))

  -- The stream over the local `buffer` is dropped afterwards.
  abbrev pub keep_stream :
      Istream S → Res (World (List ℕ) H) (Unit {0}) → Res (World S H) (Unit {0})
  keep_stream stream (done _ v) =
      done tt (record { stream = stream; mem = v.mem; heap = v.heap; fixed_count = v.fixed_count })
  keep_stream stream (failed v) =
      failed (record { stream = stream; mem = v.mem; heap = v.heap; fixed_count = v.fixed_count })
  keep_stream stream stuck = stuck

  -- A `buffer` of 10 bytes holds the raw value.
  abbrev pub callback_scalar : ℕ → Step (List ℕ) H → Step S H
  callback_scalar wire_type call = do
    bytes ← on_stream (read_raw_value wire_type 10)
    λ v. keep_stream v.stream (
        call (record {
          stream = pb_istream_from_buffer bytes (length bytes);
          mem = v.mem;
          heap = v.heap;
          fixed_count = v.fixed_count;
        }))

  unfoldable pub decode_callback_field : ℕ → FieldIter → Step S H
  unfolding callback_loop
  decode_callback_field wire_type iter w =
      let function = load_pointer w.mem iter.p_data in
      if (iter.p_data == 0) || (function == 0)
      then on_stream (pb_skip_field wire_type) w
      else if wire_type == wt_string
      then callback_string (env.callback function (here iter) (iter.p_data + 8)) w
      else callback_scalar wire_type (env.buffer_callback function (here iter) (iter.p_data + 8)) w

  abbrev pub by_atype : ℕ → FieldIter → Step S H
  by_atype wire_type iter =
      let atype = pb_atype (here iter).type in
      if atype == Atype.static
      then decode_static_field env fuel noinit wire_type iter
      else if atype == Atype.pointer
      then decode_pointer_field wire_type iter
      else if atype == Atype.callback
      then decode_callback_field wire_type iter
      else error invalid_field_type

  -- The old member of a union is released first. The result is the iterator as it is left.
  unfoldable pub decode_field : ℕ → FieldIter → M (World S H) FieldIter
  unfolding decode_pointer_field decode_callback_field
  decode_field wire_type iter = do
    iter' ←
        (if pb_htype (here iter).type == Htype.oneof
          then pb_release_union_field env.alloc env.descriptors env.extension_field fuel iter
          else return iter)
    by_atype wire_type iter'
    return iter'
