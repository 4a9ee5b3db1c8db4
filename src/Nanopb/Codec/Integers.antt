-- ===== src/Nanopb/Codec/Integers.antt =====
-- Integer fields in memory: the pb_enc_ functions of pb_encode.c against the pb_dec_ functions of
-- pb_decode.c.
use native.Mathlib.Nat.{
  pow-suc, pow-succ', one-le-pow, div-add-mod, mod-lt, mod-eq_of_lt, add-mul-mod_self_right,
}
use study_hours.Common.{
  ℕ, zero, suc, ◌+◌, ◌-◌, ◌*◌, ◌/◌, ◌%◌, ◌^◌, ◌≤◌, ◌<◌, ◌≡◌, refl, sym, ◌∙◌, ap, ltb, ◌==◌, ==_self,
  if◌then◌else◌, true, false, ◌⊎◌, inl, inr, none, List, [], IsByte, arith,
}
use study_hours.Nanopb.Run.{done}
use study_hours.Nanopb.Memory.{Mem, load, store, write_byte, load_signed}
use study_hours.Nanopb.Field.{Field}
use study_hours.Nanopb.Ostream.{Ostream, pb_ostream_from_buffer}
use study_hours.Nanopb.Istream.{buffer_stream, pb_istream_from_buffer}
use study_hours.Nanopb.Encoder.{has_int_size, pb_enc_uvarint, pb_enc_varint, pb_enc_svarint}
use study_hours.Nanopb.World.{World}
use study_hours.Nanopb.Decoder.{pb_dec_uvarint, pb_dec_varint, pb_dec_svarint, sign_extend}
use study_hours.Nanopb.Codec.Varint.{
  pb_decode_varint-pb_encode_varint, pb_decode_svarint-pb_encode_svarint,
}

-- A memory holds bytes.
abbrev pub IsMem : Mem → Type 0
IsMem m = (a : ℕ) → IsByte (m a)

load-below : (n : ℕ) (m : Mem) (a : ℕ) → IsMem m → load n m a < 256 ^ n
unfolding load
load-below zero m a h = omega arith
load-below (suc n) m a h = omega (arith, pow-suc 256 n, h a, load-below n m (a + 1) h)

-- A store leaves what lies before it.
pub store-before : (n a v j : ℕ) (m : Mem) → j < a → store n a v m j ≡ m j
unfolding store
store-before zero a v j m h = refl
store-before (suc n) a v j m h =
    store-before n (a + 1) (v / 256) j (write_byte a (v % 256) m) (omega arith) ∙ rw other refl
  where
    other : (j == a) ≡ false
    other = ground arith

split_mod : (v K : ℕ) → 0 < K → v % 256 + 256 * (v / 256 % K) ≡ v % (256 * K)
split_mod v K p = sym (
    ap (λ (t : ℕ). t % (256 * K)) whole
    ∙ (add-mul-mod_self_right rest (v / 256 / K) (256 * K) ∙ mod-eq_of_lt below))
  where
    rest : ℕ
    rest = v % 256 + 256 * (v / 256 % K)

    whole : v ≡ rest + v / 256 / K * (256 * K)
    whole = grind (arith, div-add-mod (v / 256) K)

    below : rest < 256 * K
    below = omega (arith, mod-lt (v / 256) p)

pub load-store : (n a v : ℕ) (m : Mem) → load n (store n a v m) a ≡ v % 256 ^ n
unfolding load store
load-store zero a v m = omega arith
load-store (suc n) a v m =
    rw
      (
        store-before n (a + 1) (v / 256) a (write_byte a (v % 256) m) (omega arith),
        ==_self a,
        load-store n (a + 1) (v / 256) (write_byte a (v % 256) m),
        pow-succ' 256 n,
      )
      (split_mod v (256 ^ n) (one-le-pow n 256 (omega arith)))

int_sizes : (n : ℕ) → has_int_size n ≡ true → (n ≡ 1) ⊎ (n ≡ 2) ⊎ (n ≡ 4) ⊎ (n ≡ 8)
int_sizes n h = ground arith

-- What a number of an integer size is, seen through the casts.
unsigned_fits :
    (n v : ℕ)
    → has_int_size n ≡ true
    → v < 256 ^ n
    → (v < 2 ^ 64) × (v % 2 ^ (8 * n) ≡ v) × (v % 256 ^ n ≡ v)
unsigned_fits n v h p = elim (int_sizes n h) [
  | inl e ↦ let q : v < 256 ^ 1 = rw e at p in by_size 1 e (omega arith)
  | inr (inl e) ↦ let q : v < 256 ^ 2 = rw e at p in by_size 2 e (omega arith)
  | inr (inr (inl e)) ↦ let q : v < 256 ^ 4 = rw e at p in by_size 4 e (omega arith)
  | inr (inr (inr e)) ↦ let q : v < 256 ^ 8 = rw e at p in by_size 8 e (omega arith)
]
  where
    Fits : ℕ → Type 0
    Fits k = (v < 2 ^ 64) × (v % 2 ^ (8 * k) ≡ v) × (v % 256 ^ k ≡ v)

    by_size : (k : ℕ) → n ≡ k → Fits k → Fits n
    by_size k e f = rw e f

-- A number of an integer size, read as signed and widened to 64 bits.
abbrev signed : ℕ → ℕ → ℕ
signed n v = if ltb v (2 ^ (8 * n - 1)) then v else v + 2 ^ 64 - 2 ^ (8 * n)

signed_fits :
    (n v : ℕ)
    → has_int_size n ≡ true
    → v < 256 ^ n
    → (signed n v < 2 ^ 64)
      × (sign_extend n (signed n v) ≡ signed n v)
      × ((if n == 8 then signed n v else sign_extend 4 (signed n v)) ≡ signed n v)
      × (signed n v % 256 ^ n ≡ v)
signed_fits n v h p = elim (int_sizes n h) [
  | inl e ↦ let q : v < 256 ^ 1 = rw e at p in by_size 1 e (ground arith)
  | inr (inl e) ↦ let q : v < 256 ^ 2 = rw e at p in by_size 2 e (ground arith)
  | inr (inr (inl e)) ↦ let q : v < 256 ^ 4 = rw e at p in by_size 4 e (ground arith)
  | inr (inr (inr e)) ↦ let q : v < 256 ^ 8 = rw e at p in by_size 8 e (ground arith)
]
  where
    Fits : ℕ → Type 0
    Fits k =
        (signed k v < 2 ^ 64)
        × (sign_extend k (signed k v) ≡ signed k v)
        × ((if k == 8 then signed k v else sign_extend 4 (signed k v)) ≡ signed k v)
        × (signed k v % 256 ^ k ≡ v)

    by_size : (k : ℕ) → n ≡ k → Fits k → Fits n
    by_size k e f = rw e f

-- An unsigned integer field of 1, 2, 4 or 8 bytes, encoded from a memory of bytes into a buffer
-- with room for ten bytes and decoded from there into any memory, is read back there as it was;
-- both calls return true, and the decoder takes all that the encoder wrote.
pub pb_dec_uvarint-pb_enc_uvarint {κ} :
    {H : Type κ} (field : Field) (src dest bufsize count : ℕ) (mem mem' : Mem) (heap : H)
    → has_int_size field.data_size ≡ true
    → IsMem mem
    → 10 ≤ bufsize
    → bufsize < 2 ^ 64
    → (out : Ostream (List ℕ)) × (w : World (List ℕ) H) × (pb_enc_uvarint mem field src
          (pb_ostream_from_buffer bufsize)
        ≡ done tt out)
      × (pb_dec_uvarint field dest (record {
        stream = pb_istream_from_buffer out.state out.bytes_written;
        mem = mem';
        heap = heap;
        fixed_count = count;
      })
          ≡ done tt w)
      × (w.stream ≡ buffer_stream [] 0 none)
      × (load field.data_size w.mem dest ≡ load field.data_size mem src)
unfolding pb_enc_uvarint pb_dec_uvarint
pb_dec_uvarint-pb_enc_uvarint field src dest bufsize count mem mem' heap int bytes room small =
    let n = field.data_size in
    let v = load n mem src in
    let (below, same, whole) = unsigned_fits n v int (load-below n mem src bytes) in
    let (out, wrote, read) = pb_decode_varint-pb_encode_varint v bufsize below room small in
    (
      out,
      record {
        stream = buffer_stream [] 0 none;
        mem = store n dest v mem';
        heap = heap;
        fixed_count = count;
      },
      rw int wrote,
      rw (read, int, same, ==_self v) refl,
      refl,
      load-store n dest v mem' ∙ whole,
    )

-- A signed field of varint type of 1, 2, 4 or 8 bytes, encoded from a memory of bytes into a buffer
-- with room for ten bytes and decoded from there into any memory, is read back there as it was, also
-- where it is negative; both calls return true, and the decoder takes all that the encoder wrote.
pub pb_dec_varint-pb_enc_varint {κ} :
    {H : Type κ} (field : Field) (src dest bufsize count : ℕ) (mem mem' : Mem) (heap : H)
    → has_int_size field.data_size ≡ true
    → IsMem mem
    → 10 ≤ bufsize
    → bufsize < 2 ^ 64
    → (out : Ostream (List ℕ)) × (w : World (List ℕ) H) × (pb_enc_varint mem field src
          (pb_ostream_from_buffer bufsize)
        ≡ done tt out)
      × (pb_dec_varint field dest (record {
        stream = pb_istream_from_buffer out.state out.bytes_written;
        mem = mem';
        heap = heap;
        fixed_count = count;
      })
          ≡ done tt w)
      × (w.stream ≡ buffer_stream [] 0 none)
      × (load field.data_size w.mem dest ≡ load field.data_size mem src)
unfolding pb_enc_varint pb_dec_varint load_signed
pb_dec_varint-pb_enc_varint field src dest bufsize count mem mem' heap int bytes room small =
    let n = field.data_size in
    let v = signed n (load n mem src) in
    let (below, same, widened, whole) =
      signed_fits n (load n mem src) int (load-below n mem src bytes) in
    let (out, wrote, read) = pb_decode_varint-pb_encode_varint v bufsize below room small in
    (
      out,
      record {
        stream = buffer_stream [] 0 none;
        mem = store n dest v mem';
        heap = heap;
        fixed_count = count;
      },
      rw int wrote,
      rw (read, int, widened, same, ==_self v) refl,
      refl,
      load-store n dest v mem' ∙ whole,
    )

-- A signed field of zigzag type of 1, 2, 4 or 8 bytes, encoded from a memory of bytes into a buffer
-- with room for ten bytes and decoded from there into any memory, is read back there as it was, also
-- where it is negative; both calls return true, and the decoder takes all that the encoder wrote.
pub pb_dec_svarint-pb_enc_svarint {κ} :
    {H : Type κ} (field : Field) (src dest bufsize count : ℕ) (mem mem' : Mem) (heap : H)
    → has_int_size field.data_size ≡ true
    → IsMem mem
    → 10 ≤ bufsize
    → bufsize < 2 ^ 64
    → (out : Ostream (List ℕ)) × (w : World (List ℕ) H) × (pb_enc_svarint mem field src
          (pb_ostream_from_buffer bufsize)
        ≡ done tt out)
      × (pb_dec_svarint field dest (record {
        stream = pb_istream_from_buffer out.state out.bytes_written;
        mem = mem';
        heap = heap;
        fixed_count = count;
      })
          ≡ done tt w)
      × (w.stream ≡ buffer_stream [] 0 none)
      × (load field.data_size w.mem dest ≡ load field.data_size mem src)
unfolding pb_enc_svarint pb_dec_svarint load_signed
pb_dec_svarint-pb_enc_svarint field src dest bufsize count mem mem' heap int bytes room small =
    let n = field.data_size in
    let v = signed n (load n mem src) in
    let (below, same, widened, whole) =
      signed_fits n (load n mem src) int (load-below n mem src bytes) in
    let (out, wrote, read) = pb_decode_svarint-pb_encode_svarint v bufsize below room small in
    (
      out,
      record {
        stream = buffer_stream [] 0 none;
        mem = store n dest v mem';
        heap = heap;
        fixed_count = count;
      },
      rw int wrote,
      rw (read, int, same, ==_self v) refl,
      refl,
      load-store n dest v mem' ∙ whole,
    )
