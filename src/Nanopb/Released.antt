-- ===== src/Nanopb/Released.antt =====
-- pb_release_single_field of pb_decode.c on a field behind a pointer: what it frees. `free` is the
-- C library's: it takes a block from the heap, and leaves the memory of the message as it is.
use study_hours.Common.{
  ℕ, zero, suc, ◌+◌, ◌*◌, ◌/◌, ◌%◌, ◌≤◌, ◌≡◌, refl, sym, ap, ◌∙◌, ◌⊎◌, inl, inr, ◌==◌,
  if◌then◌else◌, Bool, true, false, List, [], ◌∷◌, ◌++◌, arith,
}
use study_hours.Nanopb.Run.{done, return}
use study_hours.Nanopb.Ltype
use study_hours.Nanopb.Htype
use study_hours.Nanopb.Atype
use study_hours.Nanopb.Memory.{Mem, load, load_size, load_pointer, store, write_byte}
use study_hours.Nanopb.Field.{
  Field, FieldIter, SizePtr, at, fixed_count_size, here, pb_ltype, pb_htype, pb_atype,
}
use study_hours.Nanopb.World.{Allocator, World, get_size, set_size}
use study_hours.Nanopb.Release.{
  free_entries, free_array_entries, is_pointer_array, release_pointer, pb_release_single_field,
}
use study_hours.Nanopb.Codec.Integers.{load-store, store-before}

-- A store leaves what lies behind it.
store-after : (n a v j : ℕ) (m : Mem) → a + n ≤ j → store n a v m j ≡ m j
unfolding store
store-after zero a v j m h = refl
store-after (suc n) a v j m h =
    store-after n (a + 1) (v / 256) j (write_byte a (v % 256) m) (omega arith) ∙ rw other refl
  where
    other : (j == a) ≡ false
    other = ground arith

load-store_before : (n k a v b : ℕ) (m : Mem) → b + n ≤ a → load n (store k a v m) b ≡ load n m b
unfolding load
load-store_before zero k a v b m h = refl
load-store_before (suc n) k a v b m h =
    rw (store-before k a v b m (omega arith), load-store_before n k a v (b + 1) m (omega arith))

load-store_after : (n k a v b : ℕ) (m : Mem) → a + k ≤ b → load n (store k a v m) b ≡ load n m b
unfolding load
load-store_after zero k a v b m h = refl
load-store_after (suc n) k a v b m h =
    rw (store-after k a v b m h, load-store_after n k a v (b + 1) m (omega arith))

-- `n` bytes at `a` and `k` bytes at `b` have none in common.
abbrev pub IsApart : ℕ → ℕ → ℕ → ℕ → Type 0
IsApart a n b k = (a + n ≤ b) ⊎ (b + k ≤ a)

load-store_apart :
    (n k a v b : ℕ) (m : Mem) → IsApart b n a k → load n (store k a v m) b ≡ load n m b
load-store_apart n k a v b m (inl h) = load-store_before n k a v b m h
load-store_apart n k a v b m (inr h) = load-store_after n k a v b m h

-- The pointers of an array, and the memory once they are null.
abbrev pub pointers : ℕ → Mem → ℕ → List ℕ
pointers zero m item = []
pointers (suc count) m item = load_pointer m item ∷ pointers count m (item + 8)

abbrev nulled : ℕ → ℕ → Mem → Mem
nulled zero item m = m
nulled (suc count) item m = nulled count (item + 8) (store 8 item 0 m)

pointers-store :
    (count a b : ℕ) (m : Mem) → a + 8 ≤ b → pointers count (store 8 a 0 m) b ≡ pointers count m b
pointers-store zero a b m h = refl
pointers-store (suc count) a b m h =
    rw (load-store_after 8 8 a 0 b m h, pointers-store count a (b + 8) m (omega arith)) refl

load_pointer-nulled :
    (count item p : ℕ) (m : Mem)
    → IsApart p 8 item (8 * count)
    → load_pointer (nulled count item m) p ≡ load_pointer m p
load_pointer-nulled zero item p m h = refl
load_pointer-nulled (suc count) item p m (inl h) =
    load_pointer-nulled count (item + 8) p (store 8 item 0 m) (inl (omega arith))
    ∙ load-store_before 8 8 item 0 p m h
load_pointer-nulled (suc count) item p m (inr h) =
    load_pointer-nulled count (item + 8) p (store 8 item 0 m) (inr (omega arith))
    ∙ load-store_after 8 8 item 0 p m (omega arith)

-- The place behind `iter->pSize` lies apart from the pointer at `p`.
abbrev pub IsSizeApart : SizePtr → ℕ → Type 0
IsSizeApart (at a) p = IsApart p 8 a 4
IsSizeApart fixed_count_size p = Unit

-- The heap after blocks are freed, one after the other.
abbrev pub freed_all {κ} : {H : Type κ} → (ℕ → H → H) → List ℕ → H → H
freed_all free_block [] h = h
freed_all free_block (p ∷ ps) h = freed_all free_block ps (free_block p h)

freed_all-append {κ} :
    {H : Type κ} (free_block : ℕ → H → H) (ps : List ℕ) (p : ℕ) (h : H)
    → freed_all free_block (ps ++ (p ∷ [])) h ≡ free_block p (freed_all free_block ps h)
freed_all-append free_block [] p h = refl
freed_all-append free_block (q ∷ ps) p h = freed_all-append free_block ps p (free_block q h)

module _ {ℓ κ} {S : Type ℓ} {H : Type κ} where
  -- The number behind `iter->pSize`.
  abbrev pub size_of : SizePtr → World S H → ℕ
  size_of (at a) w = load_size w.mem a
  size_of fixed_count_size w = w.fixed_count

  get_size_lem : (p : SizePtr) (w : World S H) → get_size p w ≡ done (size_of p w) w
  get_size_lem (at a) w = refl
  get_size_lem fixed_count_size w = refl

  -- How many entries are strings or bytes behind pointers of their own.
  abbrev pub entry_count : FieldIter → World S H → ℕ
  entry_count iter w = if is_pointer_array (here iter) then size_of iter.p_size w else 0

  -- All that the field owns: the entries, and the array or single value.
  abbrev pub owned : FieldIter → World S H → List ℕ
  owned iter w =
      let array = load_pointer w.mem iter.p_data in
      pointers (entry_count iter w) w.mem array ++ (array ∷ [])

  -- The world with the number set to 0, or as it is.
  abbrev cleared : Bool → SizePtr → World S H → World S H
  cleared false p w = w
  cleared true (at a) w = record w { mem = store 4 a 0 w.mem }
  cleared true fixed_count_size w = record w { fixed_count = 0 }

  set_size_lem :
      (b : Bool) (p : SizePtr) (w : World S H)
      → (if b then set_size p 0 else return tt) w ≡ done tt (cleared b p w)
  set_size_lem false p w = refl
  set_size_lem true (at a) w = refl
  set_size_lem true fixed_count_size w = refl

  load_pointer-cleared :
      (b : Bool) (p : SizePtr) (a : ℕ) (w : World S H)
      → IsSizeApart p a
      → load_pointer (cleared b p w).mem a ≡ load_pointer w.mem a
  load_pointer-cleared false p a w h = refl
  load_pointer-cleared true (at s) a w h = load-store_apart 8 4 s 0 a w.mem h
  load_pointer-cleared true fixed_count_size a w h = refl

  heap-cleared : (b : Bool) (p : SizePtr) (w : World S H) → (cleared b p w).heap ≡ w.heap
  heap-cleared false p w = refl
  heap-cleared true (at a) w = refl
  heap-cleared true fixed_count_size w = refl

  -- The number after the pointer, too, is made null.
  size_of-cleared :
      (b : Bool) (p : SizePtr) (a : ℕ) (h : H) (w : World S H)
      → IsSizeApart p a
      → (if b
          then size_of p
              (record (cleared b p w) { mem = store 8 a 0 (cleared b p w).mem; heap = h })
          else 0)
        ≡ 0
  size_of-cleared false p a h w q = refl
  size_of-cleared true (at s) a h w (inl q) =
      load-store_after 4 8 a 0 s (store 4 s 0 w.mem) q ∙ (load-store 4 s 0 w.mem ∙ omega arith)
  size_of-cleared true (at s) a h w (inr q) =
      load-store_before 4 8 a 0 s (store 4 s 0 w.mem) q ∙ (load-store 4 s 0 w.mem ∙ omega arith)
  size_of-cleared true fixed_count_size a h w q = refl

  module _ (alloc : Allocator H) (descriptors : ℕ → List Field) (extension_field : ℕ → Field)
      (free_block : ℕ → H → H)
      (frees : (ptr : ℕ) (m : Mem) (h : H) → alloc.free ptr m h ≡ (m, free_block ptr h)) where
    free_entries_lem :
        (count item : ℕ) (w : World S H)
        → free_entries alloc descriptors extension_field count item w
          ≡ done tt (record w {
            mem = nulled count item w.mem;
            heap = freed_all free_block (pointers count w.mem item) w.heap;
          })
    unfolding free_entries
    free_entries_lem zero item w = refl
    free_entries_lem (suc count) item w =
        let p : ℕ = load_pointer w.mem item in
        let next : World S H = record w {
          mem = store 8 item 0 w.mem;
          heap = free_block p w.heap;
        } in
        rw
          (
            frees p w.mem w.heap,
            free_entries_lem count (item + 8) next,
            pointers-store count item (item + 8) w.mem (omega arith),
          )
          refl

    -- The world once the entries are freed.
    abbrev without : ℕ → ℕ → World S H → World S H
    without count array w = record w {
      mem = nulled count array w.mem;
      heap = freed_all free_block (pointers count w.mem array) w.heap;
    }

    free_array_entries_lem :
        (b : Bool) (iter : FieldIter) (w : World S H)
        → (if b then free_array_entries alloc descriptors extension_field iter else return tt) w
          ≡ done tt
              (without (if b then size_of iter.p_size w else 0) (load_pointer w.mem iter.p_data) w)
    free_array_entries_lem false iter w = refl
    free_array_entries_lem true iter w =
        rw (get_size_lem iter.p_size w)
          (free_entries_lem (size_of iter.p_size w) (load_pointer w.mem iter.p_data) w)

    -- What a release of the field leaves.
    abbrev pub IsReleased : FieldIter → World S H → World S H → Type κ
    IsReleased iter w v =
        (v.heap ≡ freed_all free_block (owned iter w) w.heap)
        × (load_pointer v.mem iter.p_data ≡ 0)
        × ((if pb_htype (here iter).type == Htype.repeated then size_of iter.p_size v else 0) ≡ 0)

    release_pointer_lem :
        (iter : FieldIter) (w : World S H)
        → IsSizeApart iter.p_size iter.p_data
        → IsApart iter.p_data 8 (load_pointer w.mem iter.p_data) (8 * entry_count iter w)
        → (v : World S H) × (release_pointer alloc descriptors extension_field iter w ≡ done tt v)
          × IsReleased iter w v
    unfolding release_pointer
    release_pointer_lem iter w apart_size apart =
        let array : ℕ = load_pointer w.mem iter.p_data in
        let b : Bool = pb_htype (here iter).type == Htype.repeated in
        let u : World S H = without (entry_count iter w) array w in
        let c : World S H = cleared b iter.p_size u in
        let still : load_pointer c.mem iter.p_data ≡ array =
          load_pointer-cleared b iter.p_size iter.p_data u apart_size
          ∙ load_pointer-nulled (entry_count iter w) array iter.p_data w.mem apart in
        (
          record c {
            mem = store 8 iter.p_data 0 c.mem;
            heap = free_block (load_pointer c.mem iter.p_data) c.heap;
          },
          rw
              (
                free_array_entries_lem (is_pointer_array (here iter)) iter w,
                set_size_lem b iter.p_size u,
                frees (load_pointer c.mem iter.p_data) c.mem c.heap,
              )
              refl,
          (
            ap (λ p. free_block p c.heap) still
                ∙ ap (free_block array) (heap-cleared b iter.p_size u)
                ∙ sym (
                    freed_all-append free_block (pointers (entry_count iter w) w.mem array) array
                      w.heap),
            load-store 8 iter.p_data 0 c.mem ∙ omega arith,
            size_of-cleared b iter.p_size iter.p_data
                (free_block (load_pointer c.mem iter.p_data) c.heap) u apart_size,
          ),
        )

    -- On a field behind a pointer that is no extension, no submessage and in no union, where the
    -- pointer shares no byte with its counter or with the entries behind it, and where `free` only
    -- changes the heap, `pb_release_single_field` returns. It has freed the pointer of every entry,
    -- if they are strings or bytes, in their order, and then the array or the single value, and
    -- nothing else; the field's pointer is null, and the counter of a repeated field is 0.
    pub pb_release_single_field_lem :
        (fuel : ℕ) (iter : FieldIter) (w : World S H)
        → pb_atype (here iter).type ≡ Atype.pointer
        → (pb_ltype (here iter).type == Ltype.extension) ≡ false
        → (pb_ltype (here iter).type == Ltype.submessage) ≡ false
        → (pb_htype (here iter).type == Htype.oneof) ≡ false
        → IsSizeApart iter.p_size iter.p_data
        → IsApart iter.p_data 8 (load_pointer w.mem iter.p_data) (8 * entry_count iter w)
        → (v : World S H) × (pb_release_single_field alloc descriptors extension_field
              (suc fuel)
              iter
              w
            ≡ done tt v)
          × IsReleased iter w v
    unfolding pb_release_single_field
    pb_release_single_field_lem fuel iter w pointer plain scalar alone apart_size apart =
        rw (alone, plain, scalar, pointer) (release_pointer_lem iter w apart_size apart)
