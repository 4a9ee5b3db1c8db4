-- ===== src/Base64/Exact.antt =====
-- fbase64.c: the decoder on an array that is exactly as long as the decoded bytes.
use study_hours.Common.{
  ℕ, zero, suc, ◌+◌, ◌-◌, ◌*◌, ◌/◌, ◌%◌, ◌^◌, ◌<◌, ◌≤◌, ◌≡◌, ◌≢◌, refl, sym, ◌∙◌, ap, leb, le→leb,
  u8, u32, low_bits, shr, if◌then◌else◌, Option, none, some, List, [], ◌∷◌, ◌++◌, append_assoc,
  length, length-append, All, IsByte, arith, inl, inr, ◌⊎◌,
}
use study_hours.Base64.{
  base64_char, scan, after_scan, put_digit, f_b64_ntop, f_b64_pton, pad64, digit0, digit1, digit2,
}
use study_hours.Base64.Groups.{locals, put_digit-state0, scan-base64_char, scan-two, scan-group}
use study_hours.Base64.Size.{encoded, length-encoded, ntop_from-room}

put_digit-full1 :
    (n v : ℕ) (pre l : List ℕ) (k : ℕ)
    → length pre + k + 1 < 2 ^ 32
    → n ≤ length pre + k + 1
    → put_digit n v (locals pre l k 1) ≡ none
unfolding put_digit
put_digit-full1 n v pre l k small h =
    let next : u32 (length pre + k + 1) ≡ length pre + k + 1 = omega arith in
    rw (next, le→leb n (length pre + k + 1) h)

put_digit-full2 :
    (n v : ℕ) (pre l : List ℕ) (k : ℕ)
    → length pre + k + 1 < 2 ^ 32
    → n ≤ length pre + k + 1
    → put_digit n v (locals pre l k 2) ≡ none
unfolding put_digit
put_digit-full2 n v pre l k small h =
    let next : u32 (length pre + k + 1) ≡ length pre + k + 1 = omega arith in
    rw (next, le→leb n (length pre + k + 1) h)

-- The loop from a group's boundary on, with `pre` decoded before it.
scan-exact :
    (n : ℕ) (src pre l : List ℕ)
    → All IsByte src
    → n < 2 ^ 32
    → length src % 3 ≢ 0
    → n ≡ length pre + length src
    → n ≤ length pre + length l
    → (after_scan (scan n (encoded src ++ (0 ∷ [])) (locals pre l 0 0))).0 ≡ none
unfolding encoded after_scan
scan-exact n [] pre l bytes small partial size fits = absurd (omega arith)
scan-exact n (a ∷ []) pre l bytes small partial size fits =
    rw
      (
        scan-base64_char n (digit0 a) (base64_char (digit1 a 0) ∷ pad64 ∷ pad64 ∷ 0 ∷ [])
            (locals pre l 0 0) (omega (arith, bytes.0)),
        put_digit-state0 n (digit0 a) pre l 0 (omega arith),
        scan-base64_char n (digit1 a 0) (pad64 ∷ pad64 ∷ 0 ∷ [])
            (locals pre (study_hours.Common.set l 0 (u8 (digit0 a * 2 ^ 2))) 0 1) (omega arith),
        put_digit-full1 n (digit1 a 0) pre (study_hours.Common.set l 0 (u8 (digit0 a * 2 ^ 2))) 0
            (omega arith) (omega arith),
      )
      refl
scan-exact n (a ∷ b ∷ []) pre (x ∷ y ∷ l) bytes small partial size fits =
    let low = u8 (low_bits (digit1 a b) 4 * 2 ^ 4) in
    rw
      (
        scan-two n a b x y pre l (base64_char (digit2 b 0) ∷ pad64 ∷ 0 ∷ []) bytes.0 bytes.1.0 small
            (omega arith),
        scan-base64_char n (digit2 b 0) (pad64 ∷ 0 ∷ []) (locals pre (a ∷ low ∷ l) 1 2)
            (omega arith),
        put_digit-full2 n (digit2 b 0) pre (a ∷ low ∷ l) 1 (omega arith) (omega arith),
      )
      refl
scan-exact n (a ∷ b ∷ c ∷ src) pre (x ∷ y ∷ z ∷ l) bytes small partial size fits =
    let three : List ℕ = a ∷ b ∷ c ∷ [] in
    let longer : length (pre ++ three) ≡ length pre + 3 = omega (arith, length-append pre three) in
    let zero_on : length pre + 3 ≡ length (pre ++ three) + 0 = omega arith in
    rw
      (
        scan-group n a b c x y z pre l (encoded src ++ (0 ∷ [])) bytes.0 bytes.1.0 bytes.1.1.0 small
            (omega arith),
        zero_on,
        sym (append_assoc pre three l),
      )
      (scan-exact n src (pre ++ three) l bytes.1.1.1 small (omega arith) (omega arith)
        (omega arith))
scan-exact n (a ∷ b ∷ src) pre [] bytes small partial size fits = absurd (omega arith)
scan-exact n (a ∷ b ∷ src) pre (x ∷ []) bytes small partial size fits = absurd (omega arith)
scan-exact n (a ∷ b ∷ c ∷ src) pre (x ∷ y ∷ []) bytes small partial size fits = absurd (omega arith)

-- On the text that `f_b64_ntop` writes, with room for it and its terminator, for fewer than 2 ^ 32
-- bytes whose number is no multiple of three, `f_b64_pton` returns -1 if its array is exactly as
-- long as those bytes.
pub f_b64_pton_exact :
    (src target : List ℕ) (targsize : ℕ)
    → All IsByte src
    → length src < 2 ^ 32
    → (length src + 2) / 3 * 4 < targsize
    → length src % 3 ≢ 0
    → length src ≤ length target
    → (f_b64_pton (f_b64_ntop src targsize).1 (some target) (length src)).0 ≡ none
unfolding f_b64_ntop f_b64_pton
f_b64_pton_exact src target targsize bytes small room partial fits =
    rw (ntop_from-room src targsize [] (omega (arith, length-encoded src)))
      (scan-exact (length src) src [] target bytes small partial (omega arith) (omega arith))
