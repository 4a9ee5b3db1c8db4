-- ===== src/Nanopb/World.antt =====
-- What the decoder changes besides its stream, and the steps that its functions share.
use study_hours.Common.{ℕ, ◌-◌, ◌*◌, ◌/◌, ◌^◌, u64, ltb, leb, ◌==◌, if◌then◌else◌, Bool, ◌&&◌, ◌||◌}
use study_hours.Nanopb.Run.{
  Res, done, failed, stuck, M, ◌>>=◌, Message, set_error, invalid_size, size_too_large,
  realloc_failed,
}
use study_hours.Nanopb.Memory.{Mem, write_byte, store, store_bytes, load_size, load_pointer}
use study_hours.Nanopb.Field.{SizePtr, at, fixed_count_size}
use study_hours.Nanopb.Istream.{Istream, pb_read}

-- The C library's `realloc` and `free` on a heap of some type.
pub record Allocator {ℓ} (H : Type ℓ) : Type ℓ where
  pub realloc : ℕ → ℕ → Mem → H → ℕ × Mem × H
  pub free : ℕ → Mem → H → Mem × H

-- `fixed_count` is the local `fixed_count_size` of the running call of `pb_decode_noinit`.
pub record World {ℓ κ} (S : Type ℓ) (H : Type κ) : Type (ℓ ⊔ κ) where
  pub stream : Istream S
  pub mem : Mem
  pub heap : H
  pub fixed_count : ℕ

-- Both factors below `check_limit` cannot overflow; otherwise a division finds out.
unfoldable pub product_overflows : ℕ → ℕ → Bool
product_overflows data_size array_size =
    (leb (2 ^ 32) data_size || leb (2 ^ 32) array_size) && ltb ((2 ^ 64 - 1) / array_size) data_size

module _ {ℓ κ} {S : Type ℓ} {H : Type κ} where
  abbrev pub with_stream {ι} : {A : Type ι} → World S H → Res (Istream S) A → Res (World S H) A
  with_stream w (done a s) = done a (record w { stream = s })
  with_stream w (failed s) = failed (record w { stream = s })
  with_stream w stuck = stuck

  -- A call that changes only the stream.
  abbrev pub on_stream {ι} : {A : Type ι} → M (Istream S) A → M (World S H) A
  on_stream m w = with_stream w (m w.stream)

  abbrev pub modify : (Mem → Mem) → M (World S H) (Unit {0})
  modify f w = done tt (record w { mem = f w.mem })

  abbrev pub peek : (Mem → ℕ) → M (World S H) ℕ
  peek f w = done (f w.mem) w

  abbrev pub error {ι} : {A : Type ι} → Message → M (World S H) A
  error msg w =
      failed (record w { stream = record (w.stream) { errmsg = set_error w.stream.errmsg msg } })

  -- Reads and writes through `iter->pSize`.
  abbrev pub get_size : SizePtr → M (World S H) ℕ
  get_size (at a) w = done (load_size w.mem a) w
  get_size fixed_count_size w = done w.fixed_count w

  abbrev pub set_size : SizePtr → ℕ → M (World S H) (Unit {0})
  set_size (at a) n w = done tt (record w { mem = store 4 a n w.mem })
  set_size fixed_count_size n w = done tt (record w { fixed_count = n })

  -- A `bool` written through `iter->pSize`.
  abbrev pub set_flag : SizePtr → ℕ → M (World S H) (Unit {0})
  set_flag (at a) b = modify (write_byte a b)
  set_flag fixed_count_size b = λ w. stuck

  -- `pb_read` into memory.
  abbrev pub read_into : ℕ → ℕ → M (World S H) (Unit {0})
  read_into dest count = do bytes ← on_stream (pb_read count); modify (store_bytes dest bytes)

  module _ (alloc : Allocator H) where
    abbrev pub keep_pointer : ℕ → World S H → ℕ × Mem × H → Res (World S H) (Unit {0})
    keep_pointer p_data w (ptr, mem, heap) =
        if ptr == 0
        then error realloc_failed (record w { mem = mem; heap = heap })
        else done tt (record w { mem = store 8 p_data ptr mem; heap = heap })

    unfoldable pub allocate_field : ℕ → ℕ → ℕ → M (World S H) (Unit {0})
    unfolding product_overflows
    allocate_field p_data data_size array_size w =
        if (data_size == 0) || (array_size == 0)
        then error invalid_size w
        else if product_overflows data_size array_size
        then error size_too_large w
        else keep_pointer p_data w
            (alloc.realloc (load_pointer w.mem p_data) (u64 (array_size * data_size)) w.mem w.heap)

    abbrev pub freed : World S H → Mem × H → Res (World S H) (Unit {0})
    freed w (mem, heap) = done tt (record w { mem = mem; heap = heap })

    -- `pb_free`
    abbrev pub free_pointer : ℕ → M (World S H) (Unit {0})
    free_pointer ptr w = freed w (alloc.free ptr w.mem w.heap)
