-- ===== src/Nanopb/DecodeMessage.antt =====
-- pb_decode.c: extensions, `pb_decode_noinit` and the entry points above it. `fuel` bounds how deep
-- messages nest and how long a list of extensions is.
use study_hours.Common.{
  ℕ, zero, suc, ◌+◌, ◌-◌, ◌/◌, ◌%◌, ◌^◌, bit_or, leb, ◌==◌, if◌then◌else◌, Bool, true, false, not,
  ◌&&◌, ◌||◌, Option, none, some, List, [], ◌∷◌, length, get_or, set,
}
use study_hours.Nanopb.Run.{
  Res, done, failed, stuck, M, ◌>>=◌, ◌>>◌, and_then, return, wrong_size_for_fixed_count_field,
  missing_required_field,
}
use study_hours.Nanopb.Htype
use study_hours.Nanopb.Memory.{write_byte, load_pointer}
use study_hours.Nanopb.Field.{
  Field, FieldIter, fixed_count_size, field_at, here, pb_field_iter_begin, pb_field_iter_next,
  pb_field_iter_find, find_extension_field, pb_htype,
}
use study_hours.Nanopb.Istream.{WithEof}
use study_hours.Nanopb.Reader.{Tag, pb_decode_tag, pb_skip_field}
use study_hours.Nanopb.World.{World, on_stream, modify, peek, error}
use study_hours.Nanopb.Defaults.{is_data, iter_from_extension}
use study_hours.Nanopb.Release.{Step}
use study_hours.Nanopb.DecodeField.{DecodeEnv, decode_new, within_substream}
use study_hours.Nanopb.DecodePointer.{decode_field}

abbrev pub pb_max_required_fields : ℕ
pb_max_required_fields = 64

-- The locals of `pb_decode_noinit`, but for `fixed_count_size`, which `World` holds.
-- `fixed_count_field` is an index into the descriptor array.
pub record Locals : Type 0 where
  pub iter : FieldIter
  pub fields_seen : List ℕ
  pub extension_range_start : ℕ
  pub fixed_count_field : Option ℕ

unfoldable pub mark_seen : ℕ → List ℕ → List ℕ
mark_seen index seen =
    set seen (index / 32) (bit_or (get_or seen (index / 32) 0) (2 ^ (index % 32)))

-- The whole words.
unfoldable pub all_seen : ℕ → List ℕ → Bool
all_seen zero seen = true
all_seen (suc n) seen = all_seen n seen && (get_or seen n 0 == 2 ^ 32 - 1)

-- And the remaining bits, if there are any.
unfoldable pub required_seen : ℕ → List ℕ → Bool
unfolding all_seen
required_seen count seen =
    all_seen (count / 32) seen
    && ((count % 32 == 0) || (get_or seen (count / 32) 0 == (2 ^ 32 - 1) / 2 ^ (32 - count % 32)))

-- The `do … while (pb_field_iter_next)` loop to the end of the field array: the last
-- `required_field_index` and type, and the iterator behind it.
unfoldable pub seek_end : ℕ → FieldIter → Option (ℕ × ℕ × FieldIter)
seek_end zero iter = none
seek_end (suc rounds) iter =
    let next = pb_field_iter_next iter in
    let rest = seek_end rounds next.0 in
    if next.1 then rest else some (iter.required_field_index, (here iter).type, next.0)

abbrev pub req_field_count : ℕ × ℕ × FieldIter → ℕ
req_field_count (index, last_type, iter) =
    let count =
      if (pb_htype last_type == Htype.required) && not ((here iter).tag == 0)
      then index + 1
      else index in
    if leb pb_max_required_fields count then pb_max_required_fields else count

module _ {ℓ κ} {S : Type ℓ} {H : Type κ} (env : DecodeEnv S H) where
  -- `noinit` is `pb_decode_noinit` one level down.
  module _ (fuel : ℕ) (noinit : List Field → ℕ → Step S H) where
    unfoldable pub default_extension_decoder : ℕ → ℕ → ℕ → Step S H
    default_extension_decoder extension tag wire_type w =
        let field = env.extension_field (load_pointer w.mem extension) in
        let iter = iter_from_extension env.extension_field extension w.mem in
        if not (field.tag == tag)
        then done tt w
        else (modify (write_byte (extension + 24) 1)
              >> (decode_field env fuel noinit wire_type iter >>= λ _. return tt))
            w

    abbrev pub extension_decoder : Option (ℕ → ℕ → ℕ → Step S H) → ℕ → ℕ → ℕ → Step S H
    extension_decoder (some decode) = decode
    extension_decoder none = default_extension_decoder

    -- The loop of `decode_extension`; `pos` is `bytes_left` before it.
    unfoldable pub extensions_loop : ℕ → ℕ → ℕ → ℕ → ℕ → Step S H
    unfolding default_extension_decoder
    extensions_loop zero pos tag wire_type extension w = stuck
    extensions_loop (suc rounds) pos tag wire_type extension w =
        let rest = extensions_loop rounds pos tag wire_type in
        let decode = env.extension_decode (load_pointer w.mem extension) in
        let round = (do
          extension_decoder decode extension tag wire_type
          next ← peek (λ m. load_pointer m (extension + 16))
          rest next) in
        if (extension == 0) || not (pos == w.stream.bytes_left) then done tt w else round w

    unfoldable pub decode_extension : ℕ → ℕ → FieldIter → Step S H
    unfolding extensions_loop
    decode_extension tag wire_type iter w =
        extensions_loop fuel w.stream.bytes_left tag wire_type (load_pointer w.mem iter.p_data) w

    -- Where no extension took the field, it is skipped.
    abbrev pub extension_or_skip : Tag → FieldIter → Step S H
    extension_or_skip tag iter w =
        (decode_extension tag.number tag.wire_type iter >> (λ v.
            if v.stream.bytes_left == w.stream.bytes_left
            then on_stream (pb_skip_field tag.wire_type) v
            else done tt v))
          w

    abbrev pub try_extension : Tag → Locals → Option (FieldIter × Bool) → M (World S H) Locals
    try_extension tag st none w = stuck
    try_extension tag st (some (iter, found)) w =
        let start = if found then (here iter).tag else 2 ^ 32 - 1 in
        let st' = record st { iter = iter; extension_range_start = start } in
        and_then
          (if leb start tag.number
            then extension_or_skip tag iter w
            else on_stream (pb_skip_field tag.wire_type) w)
          (λ _. return st')

    abbrev pub unknown_field : Tag → Locals → M (World S H) Locals
    unknown_field tag st w =
        if leb st.extension_range_start tag.number
        then try_extension tag st (find_extension_field st.iter) w
        else and_then (on_stream (pb_skip_field tag.wire_type) w) (λ _. return st)

    -- The previous fixed count field got a wrong number of entries.
    abbrev pub wrong_count : List Field → Option ℕ → ℕ → Bool
    wrong_count fields none count = false
    wrong_count fields (some pos) count = not (count == (field_at fields pos).array_size)

    abbrev pub is_current : Option ℕ → ℕ → Bool
    is_current none pos = false
    is_current (some old) pos = old == pos

    abbrev pub count_in : Locals → M (World S H) Locals
    count_in st w = done (record st { iter = record (st.iter) { p_size = fixed_count_size } }) w

    -- A repeated field without a counter in the struct.
    abbrev pub fixed_count : Locals → M (World S H) Locals
    fixed_count st w =
        if is_current st.fixed_count_field st.iter.pos
        then count_in st w
        else if wrong_count st.iter.start st.fixed_count_field w.fixed_count
        then error wrong_size_for_fixed_count_field w
        else count_in (record st { fixed_count_field = some st.iter.pos })
            (record w { fixed_count = 0 })

    abbrev pub note_required : Locals → Locals
    note_required st =
        let index = st.iter.required_field_index in
        if (pb_htype (here st.iter).type == Htype.required)
          && not (leb pb_max_required_fields index)
        then record st { fields_seen = mark_seen index st.fields_seen }
        else st

    abbrev pub known_field : Tag → Locals → M (World S H) Locals
    known_field tag st = do
      let is_fixed =
          (pb_htype (here st.iter).type == Htype.repeated) && is_data st.iter.p_size st.iter.p_data
      st' ← (if is_fixed then fixed_count st else return st)
      iter' ← decode_field env fuel noinit tag.wire_type st'.iter
      return (record (note_required st') { iter = iter' })

    abbrev pub found_field : Tag → Locals → Option (FieldIter × Bool) → M (World S H) Locals
    found_field tag st none w = stuck
    found_field tag st (some (iter, true)) w = known_field tag (record st { iter = iter }) w
    found_field tag st (some (iter, false)) w = unknown_field tag (record st { iter = iter }) w

    unfoldable pub decode_tagged : Tag → Locals → M (World S H) Locals
    unfolding decode_extension
    decode_tagged tag st w = found_field tag st (pb_field_iter_find st.iter tag.number) w

    -- `rest` is the loop from the next round on.
    abbrev pub after_tag :
        (Locals → M (World S H) Locals)
        → Locals
        → World S H
        → Res (WithEof S) Tag
        → Res (World S H) Locals
    after_tag rest st w (done tag e) =
        (decode_tagged tag st >>= rest) (record w { stream = e.stream })
    after_tag rest st w (failed e) =
        if e.eof
        then done st (record w { stream = e.stream })
        else failed (record w { stream = e.stream })
    after_tag rest st w stuck = stuck

    -- The `while (stream->bytes_left)` loop. A tag takes a byte, so `bytes_left` rounds and one more
    -- are enough.
    unfoldable pub decode_loop : ℕ → Locals → M (World S H) Locals
    unfolding decode_tagged
    decode_loop zero st w = stuck
    decode_loop (suc rounds) st w =
        if w.stream.bytes_left == 0
        then done st w
        else after_tag (decode_loop rounds) st w (pb_decode_tag w.stream)

    abbrev pub check_required : Locals → Option (ℕ × ℕ × FieldIter) → Step S H
    check_required st none w = stuck
    check_required st (some counted) w =
        if required_seen (req_field_count counted) st.fields_seen
        then done tt w
        else error missing_required_field w

    abbrev pub final_checks : List Field → Locals → Step S H
    final_checks fields st w =
        if wrong_count fields st.fixed_count_field w.fixed_count
        then error wrong_size_for_fixed_count_field w
        else check_required st (seek_end (length fields + 1) st.iter) w

    abbrev pub decode_all : List Field → ℕ → Step S H
    decode_all fields dest_struct w =
        let st : Locals = record {
          iter = (pb_field_iter_begin fields dest_struct).0;
          fields_seen = 0 ∷ 0 ∷ [];
          extension_range_start = 0;
          fixed_count_field = none;
        } in
        (decode_loop (suc w.stream.bytes_left) st >>= final_checks fields) w

    -- `fixed_count_size` is a local of each call.
    abbrev pub restore : ℕ → Res (World S H) (Unit {0}) → Res (World S H) (Unit {0})
    restore saved (done _ w) = done tt (record w { fixed_count = saved })
    restore saved (failed w) = failed (record w { fixed_count = saved })
    restore saved stuck = stuck

  unfoldable pub pb_decode_noinit : ℕ → List Field → ℕ → Step S H
  unfolding decode_loop seek_end required_seen mark_seen
  pb_decode_noinit zero fields dest_struct w = stuck
  pb_decode_noinit (suc fuel) fields dest_struct w =
      restore fuel (pb_decode_noinit fuel) w.fixed_count
        (decode_all fuel (pb_decode_noinit fuel) fields dest_struct (record w { fixed_count = 0 }))

  unfoldable pub pb_decode : ℕ → List Field → ℕ → Step S H
  unfolding pb_decode_noinit
  pb_decode fuel fields dest_struct = decode_new env fuel (pb_decode_noinit fuel) fields dest_struct

  unfoldable pub pb_decode_delimited_noinit : ℕ → List Field → ℕ → Step S H
  unfolding pb_decode_noinit
  pb_decode_delimited_noinit fuel fields dest_struct =
      within_substream (pb_decode_noinit fuel fields dest_struct)

  unfoldable pub pb_decode_delimited : ℕ → List Field → ℕ → Step S H
  unfolding pb_decode
  pb_decode_delimited fuel fields dest_struct = within_substream (pb_decode fuel fields dest_struct)

  unfoldable pub pb_decode_nullterminated : ℕ → List Field → ℕ → Step S H
  unfolding pb_decode
  pb_decode_nullterminated fuel fields dest_struct = pb_decode fuel fields dest_struct
