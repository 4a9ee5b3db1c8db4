-- ===== src/Base64/RoundTrip.antt =====
-- fbase64.c: the decoder undoes the encoder.
use study_hours.Common.{
  ℕ, ◌+◌, ◌*◌, ◌/◌, ◌^◌, ◌<◌, ◌≤◌, ◌≡◌, refl, sym, ap, leb, u8, u32, low_bits, Bool-cases, inl, inr,
  if◌then◌else◌, Option, none, some, List, [], ◌∷◌, ◌++◌, append_assoc, length, length-append, All,
  IsByte, arith,
}
use study_hours.Base64.{
  scan, after_scan, f_b64_ntop, f_b64_pton, pad64, isspace, skip_spaces, only_spaces, digit1,
  digit2,
}
use study_hours.Base64.Groups.{locals, scan-two, scan-three, scan-group, get_or-append}
use study_hours.Base64.Size.{encoded, length-encoded, ntop_from-room, ntop_from-full}

-- The result on an array that holds `src`.
abbrev IsDecoded : List ℕ → Option ℕ × Option (List ℕ) → Type 0
IsDecoded src r = (rest : List ℕ) × (r ≡ (some (length src), some (src ++ rest)))

-- At the end of a string on a group's boundary.
end-IsDecoded :
    (n : ℕ) (pre l : List ℕ)
    → IsDecoded (pre ++ []) (after_scan (scan n (0 ∷ []) (locals pre l 0 0)))
unfolding scan after_scan
end-IsDecoded n pre l =
    let size : length (pre ++ []) ≡ length pre + 0 = omega (arith, length-append pre []) in
    let none_more : pre ++ ([] ++ l) ≡ (pre ++ []) ++ l = sym (append_assoc pre [] l) in
    (l, rw (size, sym none_more) refl)

-- One pad character and two, with the byte behind the last one cleared.
one_pad-IsDecoded :
    (n a b : ℕ) (pre l : List ℕ)
    → IsDecoded
        (pre ++ (a ∷ b ∷ []))
        (after_scan (scan n (pad64 ∷ 0 ∷ []) (locals pre (a ∷ b ∷ 0 ∷ l) 2 3)))
unfolding scan after_scan only_spaces isspace
one_pad-IsDecoded n a b pre l =
    let size : length (pre ++ (a ∷ b ∷ [])) ≡ length pre + 2 =
      omega (arith, length-append pre (a ∷ b ∷ [])) in
    let split : (pre ++ (a ∷ b ∷ [])) ++ (0 ∷ l) ≡ pre ++ (a ∷ b ∷ 0 ∷ l) =
      append_assoc pre (a ∷ b ∷ []) (0 ∷ l) in
    (0 ∷ l, rw (size, split, get_or-append pre (a ∷ b ∷ 0 ∷ l) 2) refl)

two_pads-IsDecoded :
    (n a : ℕ) (pre l : List ℕ)
    → IsDecoded
        (pre ++ (a ∷ []))
        (after_scan (scan n (pad64 ∷ pad64 ∷ 0 ∷ []) (locals pre (a ∷ 0 ∷ l) 1 2)))
unfolding scan after_scan only_spaces skip_spaces isspace
two_pads-IsDecoded n a pre l =
    let size : length (pre ++ (a ∷ [])) ≡ length pre + 1 =
      omega (arith, length-append pre (a ∷ [])) in
    let split : (pre ++ (a ∷ [])) ++ (0 ∷ l) ≡ pre ++ (a ∷ 0 ∷ l) =
      append_assoc pre (a ∷ []) (0 ∷ l) in
    (0 ∷ l, rw (size, split, get_or-append pre (a ∷ 0 ∷ l) 1) refl)

-- The low bits that a partial group leaves over are zero.
clear1 : (a : ℕ) → u8 (low_bits (digit1 a 0) 4 * 2 ^ 4) ≡ 0
clear1 a = omega arith

clear2 : (b : ℕ) → u8 (low_bits (digit2 b 0) 2 * 2 ^ 6) ≡ 0
clear2 b = omega arith

-- The loop from a group's boundary on, with `pre` decoded before it.
scan-encoded :
    (n : ℕ) (src pre l : List ℕ)
    → All IsByte src
    → n < 2 ^ 32
    → length pre + length src < n
    → n ≤ length pre + length l
    → IsDecoded (pre ++ src) (after_scan (scan n (encoded src ++ (0 ∷ [])) (locals pre l 0 0)))
unfolding encoded
scan-encoded n [] pre l bytes small room fits = end-IsDecoded n pre l
scan-encoded n (a ∷ []) pre (x ∷ y ∷ l) bytes small room fits =
    rw
      (
        scan-two n a 0 x y pre l (pad64 ∷ pad64 ∷ 0 ∷ []) bytes.0 (omega arith) small (omega arith),
        clear1 a,
      )
      (two_pads-IsDecoded n a pre l)
scan-encoded n (a ∷ b ∷ []) pre (x ∷ y ∷ z ∷ l) bytes small room fits =
    rw
      (
        scan-three n a b 0 x y z pre l (pad64 ∷ 0 ∷ []) bytes.0 bytes.1.0 (omega arith) small
            (omega arith),
        clear2 b,
      )
      (one_pad-IsDecoded n a b pre l)
scan-encoded n (a ∷ b ∷ c ∷ src) pre (x ∷ y ∷ z ∷ l) bytes small room fits =
    let three : List ℕ = a ∷ b ∷ c ∷ [] in
    let size : length (pre ++ three) ≡ length pre + 3 = omega (arith, length-append pre three) in
    let zero_on : length pre + 3 ≡ length (pre ++ three) + 0 = omega arith in
    let group = scan-encoded n src (pre ++ three) l bytes.1.1.1 small (omega arith) (omega arith) in
    rw
      (
        scan-group n a b c x y z pre l (encoded src ++ (0 ∷ [])) bytes.0 bytes.1.0 bytes.1.1.0 small
            (omega arith),
        zero_on,
        sym (append_assoc pre three l),
        sym (append_assoc pre three src),
      )
      group
scan-encoded n (a ∷ src) pre [] bytes small room fits = absurd (omega arith)
scan-encoded n (a ∷ []) pre (x ∷ []) bytes small room fits = absurd (omega arith)
scan-encoded n (a ∷ b ∷ src) pre (x ∷ []) bytes small room fits = absurd (omega arith)
scan-encoded n (a ∷ b ∷ src) pre (x ∷ y ∷ []) bytes small room fits = absurd (omega arith)

-- Where the target has room for the encoded text, of fewer than 2 ^ 31 characters, and its
-- terminator, `f_b64_ntop` returns the text's length, and `f_b64_pton` on that text returns the
-- number of the source's bytes and leaves them at the start of its array, if the array's size is
-- above that number and below 2 ^ 32.
pub f_b64_pton-f_b64_ntop :
    (src target : List ℕ) (targsize size : ℕ)
    → All IsByte src
    → (length src + 2) / 3 * 4 < 2 ^ 31
    → size < 2 ^ 32
    → (length src + 2) / 3 * 4 < targsize
    → length src < size
    → size ≤ length target
    → ((f_b64_ntop src targsize).0 ≡ some ((length src + 2) / 3 * 4))
      × ((rest : List ℕ) × (f_b64_pton (f_b64_ntop src targsize).1 (some target) size
            ≡ (some (length src), some (src ++ rest))))
unfolding f_b64_ntop f_b64_pton
f_b64_pton-f_b64_ntop src target targsize size bytes short small room above fits =
    let written = ntop_from-room src targsize [] (omega (arith, length-encoded src)) in
    let start : u32 (0 + (length src + 2) / 3 * 4) ≡ (length src + 2) / 3 * 4 = omega arith in
    rw (written, length-encoded src)
      (ap some start, scan-encoded size src [] target bytes small (omega arith) (omega arith))

-- `f_b64_ntop` returns the length of the encoded text, of which the `int` keeps 32 bits, where the
-- target has room for it and the terminator, and -1 otherwise; in both cases it writes no more
-- than `targsize` characters.
pub f_b64_ntop_bounds :
    (src : List ℕ) (targsize : ℕ)
    → ((f_b64_ntop src targsize).0 ≡ (
        if leb targsize ((length src + 2) / 3 * 4)
        then none
        else some (u32 ((length src + 2) / 3 * 4))))
      × (length (f_b64_ntop src targsize).1 ≤ targsize)
unfolding f_b64_ntop
f_b64_ntop_bounds src targsize =
    let size = length-encoded src in
    let start : 0 + length (encoded src) ≡ (length src + 2) / 3 * 4 = omega (arith, size) in
    elim (Bool-cases (leb targsize ((length src + 2) / 3 * 4))) [
      | inl e ↦ rw e (ntop_from-full src targsize [] (ground arith) (omega arith))
      | inr e ↦
          rw (e, ntop_from-room src targsize [] (ground arith), start)
            (refl, ground (arith, length-append (encoded src) (0 ∷ [])))
    ]
