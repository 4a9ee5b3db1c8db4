-- ===== src/Base64/Size.antt =====
-- fbase64.c: how much the encoder writes.
use study_hours.Common.{
  ℕ, u32, ◌+◌, ◌*◌, ◌/◌, ◌<◌, ◌≤◌, ◌≡◌, refl, inl, inr, ltb, le→leb, leb-false, ltb-false,
  Bool-cases, none, some, List, [], ◌∷◌, ◌++◌, append_assoc, length, length-append, arith,
}
use study_hours.Base64.{
  base64_char, ntop_from, terminate, padded, pad64, digit0, digit1, digit2, digit3,
}

-- The characters of an encoded text, without the terminator.
unfoldable pub encoded : List ℕ → List ℕ
encoded (a ∷ b ∷ c ∷ src) =
    base64_char (digit0 a)
    ∷ base64_char (digit1 a b)
    ∷ base64_char (digit2 b c)
    ∷ base64_char (digit3 c)
    ∷ encoded src
encoded (a ∷ b ∷ []) =
    base64_char (digit0 a) ∷ base64_char (digit1 a b) ∷ base64_char (digit2 b 0) ∷ pad64 ∷ []
encoded (a ∷ []) = base64_char (digit0 a) ∷ base64_char (digit1 a 0) ∷ pad64 ∷ pad64 ∷ []
encoded [] = []

pub length-encoded : (src : List ℕ) → length (encoded src) ≡ (length src + 2) / 3 * 4
unfolding encoded
length-encoded (a ∷ b ∷ c ∷ src) = omega (arith, length-encoded src)
length-encoded (a ∷ b ∷ []) = omega arith
length-encoded (a ∷ []) = omega arith
length-encoded [] = omega arith

terminate-room :
    (n : ℕ) (target : List ℕ)
    → length target < n
    → terminate n target ≡ (some (u32 (length target)), target ++ (0 ∷ []))
terminate-room n target h = rw (leb-false n (length target) h)

padded-room :
    (n : ℕ) (target : List ℕ) (a b c d : ℕ)
    → length target + 4 < n
    → padded n target (a ∷ b ∷ c ∷ d ∷ [])
      ≡ (some (u32 (length target + 4)), target ++ ((a ∷ b ∷ c ∷ d ∷ []) ++ (0 ∷ [])))
padded-room n target a b c d h =
    let four : List ℕ = a ∷ b ∷ c ∷ d ∷ [] in
    let size : length (target ++ four) ≡ length target + 4 =
      omega (arith, length-append target four) in
    rw (
      ltb-false n (length target + 4) (omega arith),
      terminate-room n (target ++ four) (omega arith),
      size,
      append_assoc target four (0 ∷ []),
    )

-- With room for all of it and the terminator, the encoder writes the encoded text.
pub ntop_from-room :
    (src : List ℕ) (n : ℕ) (target : List ℕ)
    → length target + length (encoded src) < n
    → ntop_from src n target
      ≡ (some (u32 (length target + length (encoded src))), target ++ (encoded src ++ (0 ∷ [])))
unfolding ntop_from encoded
ntop_from-room (a ∷ b ∷ c ∷ src) n target h =
    let four : List ℕ =
      base64_char (digit0 a)
      ∷ base64_char (digit1 a b)
      ∷ base64_char (digit2 b c)
      ∷ base64_char (digit3 c)
      ∷ [] in
    let size : length (target ++ four) ≡ length target + 4 =
      omega (arith, length-append target four) in
    let total : length (target ++ four) + length (encoded src)
        ≡ length target + length (encoded (a ∷ b ∷ c ∷ src)) =
      omega arith in
    rw (
      ltb-false n (length target + 4) (omega arith),
      ntop_from-room src n (target ++ four) (omega arith),
      total,
      append_assoc target four (encoded src ++ (0 ∷ [])),
    )
ntop_from-room (a ∷ b ∷ []) n target h =
    padded-room n target (base64_char (digit0 a)) (base64_char (digit1 a b))
      (base64_char (digit2 b 0)) pad64 h
ntop_from-room (a ∷ []) n target h =
    padded-room n target (base64_char (digit0 a)) (base64_char (digit1 a 0)) pad64 pad64 h
ntop_from-room [] n target h =
    let same : length target + 0 ≡ length target = omega arith in
    rw same (terminate-room n target (omega arith))

terminate-full :
    (n : ℕ) (target : List ℕ)
    → n ≤ length target
    → length target ≤ n
    → ((terminate n target).0 ≡ none) × (length (terminate n target).1 ≤ n)
terminate-full n target h k = rw (le→leb n (length target) h) (refl, k)

padded-full :
    (n : ℕ) (target : List ℕ) (a b c d : ℕ)
    → n ≤ length target + 4
    → length target ≤ n
    → ((padded n target (a ∷ b ∷ c ∷ d ∷ [])).0 ≡ none)
      × (length (padded n target (a ∷ b ∷ c ∷ d ∷ [])).1 ≤ n)
padded-full n target a b c d h k =
    let four : List ℕ = a ∷ b ∷ c ∷ d ∷ [] in
    let size : length (target ++ four) ≡ length target + 4 =
      omega (arith, length-append target four) in
    elim (Bool-cases (ltb n (length target + 4))) [
      | inl e ↦ rw e (refl, k)
      | inr e ↦ rw e (terminate-full n (target ++ four) (omega arith) (ground arith))
    ]

-- Without, it fails and stays in bounds.
pub ntop_from-full :
    (src : List ℕ) (n : ℕ) (target : List ℕ)
    → n ≤ length target + length (encoded src)
    → length target ≤ n
    → ((ntop_from src n target).0 ≡ none) × (length (ntop_from src n target).1 ≤ n)
unfolding ntop_from encoded
ntop_from-full (a ∷ b ∷ c ∷ src) n target h k =
    let four : List ℕ =
      base64_char (digit0 a)
      ∷ base64_char (digit1 a b)
      ∷ base64_char (digit2 b c)
      ∷ base64_char (digit3 c)
      ∷ [] in
    let size : length (target ++ four) ≡ length target + 4 =
      omega (arith, length-append target four) in
    elim (Bool-cases (ltb n (length target + 4))) [
      | inl e ↦ rw e (refl, k)
      | inr e ↦ rw e (ntop_from-full src n (target ++ four) (omega arith) (ground arith))
    ]
ntop_from-full (a ∷ b ∷ []) n target h k =
    padded-full n target (base64_char (digit0 a)) (base64_char (digit1 a b))
      (base64_char (digit2 b 0)) pad64 h k
ntop_from-full (a ∷ []) n target h k =
    padded-full n target (base64_char (digit0 a)) (base64_char (digit1 a 0)) pad64 pad64 h k
ntop_from-full [] n target h k = terminate-full n target (omega arith) k
