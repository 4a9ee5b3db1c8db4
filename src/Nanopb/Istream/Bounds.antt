-- ===== src/Nanopb/Istream/Bounds.antt =====
-- The readers of pb_decode.c on any stream: they end, and stay within `bytes_left`.
use study_hours.Common.{
  ℕ, zero, suc, ◌+◌, ◌-◌, ◌*◌, ◌≤◌, ◌<◌, ltb, leb, ◌==◌, if◌then◌else◌, Bool, true, false, not,
  ◌&&◌, ◌||◌, Bool-cases, le→leb, inl, inr, List, u8, test_bit, low_bits, shr, arith,
}
use study_hours.Nanopb.Run.{
  Res, done, failed, stuck, M, ◌>>=◌, and_then, return, Message, varint_overflow,
}
use study_hours.Nanopb.Istream.{
  Istream, WithEof, keep_eof, drop_eof, varint32_from, fail_with, read_bytes, skip_chunks, pb_read,
  pb_read_null, pb_readbyte, add_byte32, check_fifth_byte, varint32_loop, varint32_tail,
  pb_decode_varint32_eof, pb_decode_varint32, varint_loop, pb_decode_varint,
}

module _ {ℓ} {S : Type ℓ} where
  -- A call that returns true has taken `k` bytes at least, one that returns false none too many, and
  -- the call does return.
  abbrev pub Within {κ} : {A : Type κ} → ℕ → ℕ → Res (Istream S) A → Type 0
  Within k left (done _ s) = s.bytes_left + k ≤ left
  Within k left (failed s) = s.bytes_left ≤ left
  Within k left stuck = ⊥

  abbrev pub IsWithin {κ} : {A : Type κ} → ℕ → M (Istream S) A → Type ℓ
  IsWithin k m = (s : Istream S) → Within k s.bytes_left (m s)

  pub fail_with-IsWithin {κ} :
      (A : Type κ) (k : ℕ) (msg : Message) → IsWithin {A = A} k (fail_with msg)
  fail_with-IsWithin A k msg s = omega arith

  pub return-IsWithin {κ} : {A : Type κ} (a : A) → IsWithin 0 (return a)
  return-IsWithin a s = omega arith

  pub widen {κ} :
      {A : Type κ} (k k' left left' : ℕ) (r : Res (Istream S) A)
      → Within k left r
      → left + k' ≤ left' + k
      → left ≤ left'
      → Within k' left' r
  widen k k' left left' (done a s) h p q = omega arith
  widen k k' left left' (failed s) h p q = omega arith
  widen k k' left left' stuck h p q = absurd h

  pub and_then-Within {κ ι} :
      {A : Type κ} {B : Type ι} (j k left : ℕ) (r : Res (Istream S) A) (f : A → M (Istream S) B)
      → Within j left r
      → ((a : A) (s : Istream S) → s.bytes_left + j ≤ left → Within k s.bytes_left (f a s))
      → Within (j + k) left (and_then r f)
  and_then-Within j k left (done a s) f h g =
      widen k (j + k) s.bytes_left left (f a s) (g a s h) (omega arith) (omega arith)
  and_then-Within j k left (failed s) f h g = h
  and_then-Within j k left stuck f h g = absurd h

  pub >>=-IsWithin {κ ι} :
      {A : Type κ} {B : Type ι} (j k : ℕ) (m : M (Istream S) A) (f : A → M (Istream S) B)
      → IsWithin j m
      → ((a : A) → IsWithin k (f a))
      → IsWithin (j + k) (m >>= f)
  >>=-IsWithin j k m f h g s = and_then-Within j k s.bytes_left (m s) f (h s) (λ a s' below. g a s')

  pub if-IsWithin {κ} :
      {A : Type κ} (k : ℕ) (b : Bool) (m n : M (Istream S) A)
      → IsWithin k m
      → IsWithin k n
      → IsWithin k (if b then m else n)
  if-IsWithin k true m n p q = p
  if-IsWithin k false m n p q = q

  after_read-Within :
      (count : ℕ) (s : Istream S) (r : Bool × List ℕ × S)
      → count ≤ s.bytes_left
      → Within count s.bytes_left (study_hours.Nanopb.Istream.after_read count s r)
  after_read-Within count s (true, bytes, state) h = omega arith
  after_read-Within count s (false, bytes, state) h = omega arith

  pub read_bytes-IsWithin : (count : ℕ) → IsWithin count (read_bytes count)
  unfolding read_bytes
  read_bytes-IsWithin count s = elim (Bool-cases (ltb s.bytes_left count)) [
    | inl e ↦ rw e (omega arith)
    | inr e ↦ rw e (after_read-Within count s (s.read s.state count) (ground arith))
  ]

  after_readbyte-Within :
      (s : Istream S) (r : Bool × List ℕ × S)
      → 0 < s.bytes_left
      → Within 1 s.bytes_left (study_hours.Nanopb.Istream.after_readbyte s r)
  after_readbyte-Within s (true, bytes, state) h = omega arith
  after_readbyte-Within s (false, bytes, state) h = omega arith

  pub pb_readbyte-IsWithin : IsWithin 1 pb_readbyte
  unfolding pb_readbyte
  pb_readbyte-IsWithin s = elim (Bool-cases (s.bytes_left == 0)) [
    | inl e ↦ rw e (omega arith)
    | inr e ↦ rw e (after_readbyte-Within s (s.read s.state 1) (ground arith))
  ]

  -- The loop of `pb_decode_varint`, while the fuel lasts to bit 64.
  varint_loop-IsWithin :
      (fuel bitpos result : ℕ)
      → 64 ≤ bitpos + 7 * fuel
      → bitpos ≤ 70
      → IsWithin 0 (varint_loop (suc fuel) bitpos result)
  unfolding varint_loop
  varint_loop-IsWithin zero bitpos result h p s = rw (le→leb 64 bitpos (omega arith)) (omega arith)
  varint_loop-IsWithin (suc fuel) bitpos result h p s = elim (Bool-cases (leb 64 bitpos)) [
    | inl e ↦ rw e (omega arith)
    | inr e ↦ rw e (
        widen 1 0 s.bytes_left s.bytes_left _
          (>>=-IsWithin 1 0 pb_readbyte _ pb_readbyte-IsWithin
            (λ byte.
              if-IsWithin 0 (test_bit byte 7) _ _
                (varint_loop-IsWithin fuel (u8 (bitpos + 7)) _ (ground arith) (ground arith))
                (λ s'. omega arith))
            s)
          (omega arith) (omega arith))
  ]

  add_byte32-IsWithin : (bitpos result byte : ℕ) → IsWithin 0 (add_byte32 bitpos result byte)
  unfolding add_byte32
  add_byte32-IsWithin bitpos result byte =
      if-IsWithin 0 (leb 32 bitpos) _ _
        (if-IsWithin 0
          (not (low_bits byte 7 == 0)
            && (shr result 31 == 0 || not (byte == (if ltb bitpos 63 then 255 else 1))))
          (fail_with varint_overflow) (return result) (λ s. omega arith) (λ s. omega arith))
        (λ s. omega arith)

  check_fifth_byte-IsWithin :
      (bitpos byte result : ℕ) → IsWithin 0 (check_fifth_byte bitpos byte result)
  unfolding check_fifth_byte
  check_fifth_byte-IsWithin bitpos byte result =
      if-IsWithin 0 ((bitpos == 35) && not (low_bits (shr byte 4) 3 == 0))
        (fail_with varint_overflow) (return result) (λ s. omega arith) (λ s. omega arith)

  -- The loop of `pb_decode_varint32_eof` takes a byte in each round.
  varint32_loop-Within :
      (fuel bitpos result : ℕ) (s : Istream S)
      → s.bytes_left < fuel
      → Within 0 s.bytes_left (varint32_loop fuel bitpos result s)
  unfolding varint32_loop
  varint32_loop-Within zero bitpos result s h = absurd (omega arith)
  varint32_loop-Within (suc fuel) bitpos result s h =
      widen 1 0 s.bytes_left s.bytes_left _
        (and_then-Within 1 0 s.bytes_left (pb_readbyte s) _ (pb_readbyte-IsWithin s)
          (λ byte s' taken.
            and_then-Within 0 0 s'.bytes_left (add_byte32 bitpos result byte s') _
              (add_byte32-IsWithin bitpos result byte s')
              (λ result' s'' below. elim (Bool-cases (test_bit byte 7)) [
                | inl e ↦
                    rw e (varint32_loop-Within fuel (u8 (bitpos + 7)) result' s'' (omega arith))
                | inr e ↦ rw e (check_fifth_byte-IsWithin (u8 (bitpos + 7)) byte result' s'')
              ])))
        (omega arith) (omega arith)

  varint32_tail-IsWithin : (byte : ℕ) → IsWithin 0 (varint32_tail byte)
  unfolding varint32_tail
  varint32_tail-IsWithin byte s = elim (Bool-cases (test_bit byte 7)) [
    | inl e ↦ rw e (varint32_loop-Within (suc s.bytes_left) 7 _ s (omega arith))
    | inr e ↦ rw e (omega arith)
  ]

  -- The same for a stream with the `eof` flag.
  abbrev pub WithinEof {κ} : {A : Type κ} → ℕ → ℕ → Res (WithEof S) A → Type 0
  WithinEof k left (done _ w) = w.stream.bytes_left + k ≤ left
  WithinEof k left (failed w) = w.stream.bytes_left ≤ left
  WithinEof k left stuck = ⊥

  keep_eof-WithinEof {κ} :
      {A : Type κ} (k left : ℕ) (eof : Bool) (r : Res (Istream S) A)
      → Within k left r
      → WithinEof k left (keep_eof eof r)
  keep_eof-WithinEof k left eof (done a s) h = h
  keep_eof-WithinEof k left eof (failed s) h = h
  keep_eof-WithinEof k left eof stuck h = absurd h

  varint32_from-WithinEof :
      (left : ℕ) (eof : Bool) (r : Res (Istream S) ℕ)
      → Within 1 left r
      → WithinEof 1 left (varint32_from eof r)
  varint32_from-WithinEof left eof (done byte s) h =
      keep_eof-WithinEof 1 left eof (varint32_tail byte s) (
        widen 0 1 s.bytes_left left (varint32_tail byte s) (varint32_tail-IsWithin byte s)
          (omega arith) (omega arith))
  varint32_from-WithinEof left eof (failed s) h = h
  varint32_from-WithinEof left eof stuck h = absurd h

  pub pb_decode_varint32_eof-WithinEof :
      (w : WithEof S) → WithinEof 1 w.stream.bytes_left (pb_decode_varint32_eof w)
  unfolding pb_decode_varint32_eof
  pb_decode_varint32_eof-WithinEof w =
      varint32_from-WithinEof w.stream.bytes_left w.eof (pb_readbyte w.stream)
        (pb_readbyte-IsWithin w.stream)

  drop_eof-Within {κ} :
      {A : Type κ} (k left : ℕ) (r : Res (WithEof S) A)
      → WithinEof k left r
      → Within k left (drop_eof r)
  drop_eof-Within k left (done a w) h = h
  drop_eof-Within k left (failed w) h = h
  drop_eof-Within k left stuck h = absurd h

  pub pb_decode_varint32-IsWithin : IsWithin 1 pb_decode_varint32
  unfolding pb_decode_varint32
  pb_decode_varint32-IsWithin s =
      drop_eof-Within 1 s.bytes_left (pb_decode_varint32_eof (record { stream = s; eof = false }))
        (pb_decode_varint32_eof-WithinEof (record { stream = s; eof = false }))

  -- `pb_decode_varint` takes its first byte before it can return true.
  pub pb_decode_varint-IsWithin : IsWithin 1 pb_decode_varint
  unfolding pb_decode_varint varint_loop
  pb_decode_varint-IsWithin = >>=-IsWithin 1 0 pb_readbyte _ pb_readbyte-IsWithin (λ byte.
      if-IsWithin 0 (test_bit byte 7) _ _ (varint_loop-IsWithin 9 7 _ (omega arith) (omega arith))
        (λ s'. omega arith))

  -- Skipping through `tmp`, sixteen bytes a round.
  skip_chunks-Within :
      (fuel count : ℕ) (s : Istream S)
      → count < fuel
      → Within count s.bytes_left (skip_chunks fuel count s)
  unfolding skip_chunks
  skip_chunks-Within zero count s h = absurd (omega arith)
  skip_chunks-Within (suc fuel) count s h = elim (Bool-cases (ltb 16 count)) [
    | inl e ↦ rw e (
        widen (16 + (count - 16)) count s.bytes_left s.bytes_left _
          (and_then-Within 16 (count - 16) s.bytes_left (read_bytes 16 s) _
            (read_bytes-IsWithin 16 s)
            (λ bytes s' taken. skip_chunks-Within fuel (count - 16) s' (ground arith)))
          (ground arith) (omega arith))
    | inr e ↦ rw e (read_bytes-IsWithin count s)
  ]

  pub pb_read_null-IsWithin : (count : ℕ) → IsWithin count (pb_read_null count)
  unfolding pb_read_null
  pb_read_null-IsWithin count s = elim (Bool-cases (not s.is_buf_read)) [
    | inl e ↦ rw e (skip_chunks-Within (suc count) count s (omega arith))
    | inr e ↦ rw e (read_bytes-IsWithin count s)
  ]
