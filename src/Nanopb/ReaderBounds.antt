-- ===== src/Nanopb/ReaderBounds.antt =====
-- The readers of pb_decode.c above the varints, on any stream: they end, and stay within
-- `bytes_left`.
use study_hours.Common.{
  ℕ, zero, suc, ◌+◌, ◌≤◌, ◌<◌, ◌==◌, false, Bool-cases, inl, inr, test_bit, get_or, arith,
}
use study_hours.Nanopb.Run.{Res, done, failed, stuck, ◌>>=◌, and_then, return}
use study_hours.Nanopb.Istream.{
  Istream, WithEof, pb_read, pb_read_null, pb_decode_varint, pb_decode_varint32,
  pb_decode_varint32_eof,
}
use study_hours.Nanopb.Istream.Bounds.{
  Within, WithinEof, IsWithin, widen, and_then-Within, >>=-IsWithin, if-IsWithin,
  read_bytes-IsWithin, pb_read_null-IsWithin, pb_decode_varint-IsWithin,
  pb_decode_varint32-IsWithin, pb_decode_varint32_eof-WithinEof,
}
use study_hours.Nanopb.Reader.{
  split_tag, skip_varint_loop, pb_skip_varint, pb_skip_string, pb_decode_tag, pb_skip_field,
  wt_varint, wt_64bit, wt_string, wt_32bit,
}

module _ {ℓ} {S : Type ℓ} where
  split_tag-WithinEof :
      (left temp : ℕ) (w : WithEof S)
      → w.stream.bytes_left + 1 ≤ left
      → WithinEof 1 left (split_tag temp w)
  split_tag-WithinEof left temp w h = elim (Bool-cases (temp == 0)) [
    | inl e ↦ rw e (omega arith)
    | inr e ↦ rw e h
  ]

  then_split-WithinEof :
      (left : ℕ) (r : Res (WithEof S) ℕ)
      → WithinEof 1 left r
      → WithinEof 1 left (and_then r split_tag)
  then_split-WithinEof left (done temp w) h = split_tag-WithinEof left temp w h
  then_split-WithinEof left (failed w) h = h
  then_split-WithinEof left stuck h = absurd h

  pub pb_decode_tag-WithinEof : (s : Istream S) → WithinEof 1 s.bytes_left (pb_decode_tag s)
  unfolding pb_decode_tag
  pb_decode_tag-WithinEof s =
      then_split-WithinEof s.bytes_left
        (pb_decode_varint32_eof (record { stream = s; eof = false }))
        (pb_decode_varint32_eof-WithinEof (record { stream = s; eof = false }))

  pub pb_read-IsWithin : (count : ℕ) → IsWithin {S = S} count (pb_read count)
  unfolding pb_read
  pb_read-IsWithin count = read_bytes-IsWithin count

  skip_varint_loop-Within :
      (fuel : ℕ) (s : Istream S)
      → s.bytes_left < fuel
      → Within 1 s.bytes_left (skip_varint_loop fuel s)
  unfolding skip_varint_loop
  skip_varint_loop-Within zero s h = absurd (omega arith)
  skip_varint_loop-Within (suc fuel) s h =
      and_then-Within 1 0 s.bytes_left (pb_read 1 s) _ (pb_read-IsWithin 1 s) (λ bytes s' taken.
        elim (Bool-cases (test_bit (get_or bytes 0 0) 7)) [
          | inl e ↦ rw e (
              widen 1 0 s'.bytes_left s'.bytes_left _
                (skip_varint_loop-Within fuel s' (omega arith)) (omega arith) (omega arith))
          | inr e ↦ rw e (omega arith)
        ])

  pb_skip_varint-IsWithin : IsWithin {S = S} 1 pb_skip_varint
  unfolding pb_skip_varint
  pb_skip_varint-IsWithin s = skip_varint_loop-Within (suc s.bytes_left) s (omega arith)

  pb_skip_string-IsWithin : IsWithin {S = S} 1 pb_skip_string
  unfolding pb_skip_string
  pb_skip_string-IsWithin =
      >>=-IsWithin 1 0 pb_decode_varint32 _ pb_decode_varint32-IsWithin (λ n s.
        widen n 0 s.bytes_left s.bytes_left _
          (widen (n + 0) n s.bytes_left s.bytes_left _
            (>>=-IsWithin n 0 (pb_read_null n) _ (pb_read_null-IsWithin n) (λ bytes s'. omega arith)
              s)
            (omega arith) (omega arith))
          (omega arith) (omega arith))

  skip_bytes-IsWithin :
      (n : ℕ) → 0 < n → IsWithin {S = S} {A = Unit {0}} 1 (pb_read_null n >>= λ _. return tt)
  skip_bytes-IsWithin n pos s =
      widen (n + 0) 1 s.bytes_left s.bytes_left _
        (>>=-IsWithin n 0 (pb_read_null n) _ (pb_read_null-IsWithin n) (λ bytes s'. omega arith) s)
        (omega arith) (omega arith)

  pub pb_skip_field-IsWithin : (wire_type : ℕ) → IsWithin {S = S} 1 (pb_skip_field wire_type)
  unfolding pb_skip_field
  pb_skip_field-IsWithin wire_type =
      if-IsWithin 1 (wire_type == wt_varint) _ _ pb_skip_varint-IsWithin (
        if-IsWithin 1 (wire_type == wt_64bit) _ _ (skip_bytes-IsWithin 8 (omega arith)) (
          if-IsWithin 1 (wire_type == wt_string) _ _ pb_skip_string-IsWithin (
            if-IsWithin 1 (wire_type == wt_32bit) _ _ (skip_bytes-IsWithin 4 (omega arith))
              (λ s. omega arith))))

  -- On any stream and for any wire type, `pb_decode_varint`, `pb_decode_varint32`, `pb_decode_tag` and
  -- `pb_skip_field` end. Where they return true, `bytes_left` has gone down, and where they return
  -- false it has not gone up.
  pub pb_decode_tag_bounds :
      (wire_type : ℕ) (s : Istream S)
      → Within 1 s.bytes_left (pb_decode_varint s)
        × Within 1 s.bytes_left (pb_decode_varint32 s)
        × WithinEof 1 s.bytes_left (pb_decode_tag s)
        × Within 1 s.bytes_left (pb_skip_field wire_type s)
  pb_decode_tag_bounds wire_type s = (
    pb_decode_varint-IsWithin s,
    pb_decode_varint32-IsWithin s,
    pb_decode_tag-WithinEof s,
    pb_skip_field-IsWithin wire_type s,
  )
