-- ===== src/Nanopb/Required.antt =====
-- pb_decode_noinit: what the words of `fields_seen` say about the required fields.
use Prim.Native.Nat.{max}
use native.Mathlib.Nat.{pow-le-pow_right, pow-succ', one-le-pow}
use study_hours.Common.{
  all_below, all_below→, ℕ, zero, suc, ◌+◌, ◌-◌, ◌/◌, ◌%◌, ◌^◌, ◌≤◌, ◌<◌, ◌≡◌, refl, sym, ◌∙◌, ap,
  ◌⊎◌, inl, inr, ◌==◌, ==_iff, Bool, true, false, ◌&&◌, ◌||◌, bit_or, List, [], ◌∷◌, All, arith,
}
use study_hours.Nanopb.DecodeMessage.{mark_seen, required_seen}
use study_hours.Nanopb.Bitmap.{bit, flag, bit-bit_or, bit-pow, bit_or-below, full_word}

abbrev pub elem : ℕ → List ℕ → Bool
elem j [] = false
elem j (i ∷ is) = (i == j) || elem j is

-- `fields_seen` behind required fields with these indices.
unfoldable pub mark_all : List ℕ → List ℕ
mark_all [] = 0 ∷ 0 ∷ []
mark_all (i ∷ is) = mark_seen i (mark_all is)

-- Two words stand for a set of numbers below 64.
abbrev Holds : (ℕ → Bool) → List ℕ → Type 0
Holds f seen =
    (a b : ℕ) × (seen ≡ a ∷ b ∷ [])
    × (a < 2 ^ 32)
    × (b < 2 ^ 32)
    × ((j : ℕ) → j < 32 → bit j a ≡ flag (f j))
    × ((j : ℕ) → j < 32 → bit j b ≡ flag (f (32 + j)))

flag-or : (p q : Bool) → flag (p || q) ≡ max (flag q) (flag p)
flag-or true true = refl
flag-or true false = refl
flag-or false true = refl
flag-or false false = refl

-- A bit is added to a word.
added :
    (i j x : ℕ) (p q : Bool)
    → bit j x ≡ flag q
    → (j == i) ≡ p
    → bit j (bit_or x (2 ^ i)) ≡ flag (p || q)
added i j x p q h e = bit-bit_or j x (2 ^ i) ∙ (rw (h, bit-pow j i, e) refl ∙ sym (flag-or p q))

pow_below : (i : ℕ) → i < 32 → 2 ^ i < 2 ^ 32
pow_below i h = omega (
  arith,
  pow-le-pow_right {n = 2} (omega arith) {i = suc i} {j = 32} (omega arith),
  pow-succ' 2 i,
  one-le-pow i 2 (omega arith),
)

mark_seen-Holds :
    (i : ℕ) (f : ℕ → Bool) (seen : List ℕ)
    → i < 64
    → Holds f seen
    → Holds (λ j. (i == j) || f j) (mark_seen i seen)
unfolding mark_seen
mark_seen-Holds i f seen h (a, b, e, below_a, below_b, bits_a, bits_b) = elim (half i) [
  | inl low ↦
      let word : i / 32 ≡ 0 = omega arith in
      let place : i % 32 ≡ i = omega arith in
      (
        bit_or a (2 ^ i),
        b,
        rw (e, word, place) refl,
        bit_or-below 32 a (2 ^ i) below_a (pow_below i low),
        below_b,
        λ j p. added i j a (i == j) (f j) (bits_a j p) (ground arith),
        λ j p. bits_b j p ∙ rw (apart j low) refl,
      )
  | inr high ↦
      let word : i / 32 ≡ 1 = omega arith in
      let place : i % 32 ≡ i - 32 = omega arith in
      (
        a,
        bit_or b (2 ^ (i - 32)),
        rw (e, word, place) refl,
        below_a,
        bit_or-below 32 b (2 ^ (i - 32)) below_b (pow_below (i - 32) (omega arith)),
        λ j p. bits_a j p ∙ rw (apart_low j p high) refl,
        λ j p. added (i - 32) j b (i == 32 + j) (f (32 + j)) (bits_b j p) (ground arith),
      )
]
  where
    half : (i : ℕ) → (i < 32) ⊎ (32 ≤ i)
    half i = ground arith

    apart : (j : ℕ) → i < 32 → (i == 32 + j) ≡ false
    apart j low = ground arith

    apart_low : (j : ℕ) → j < 32 → 32 ≤ i → (i == j) ≡ false
    apart_low j p high = ground arith

mark_all-Holds : (is : List ℕ) → All (λ i. i < 64) is → Holds (λ j. elem j is) (mark_all is)
unfolding mark_all
mark_all-Holds [] h = (0, 0, refl, omega arith, omega arith, λ j p. none j, λ j p. none j)
  where
    none : (j : ℕ) → bit j 0 ≡ 0
    none zero = omega arith
    none (suc j) = none j
mark_all-Holds (i ∷ is) h =
    mark_seen-Holds i (λ j. elem j is) (mark_all is) h.0 (mark_all-Holds is h.1)

-- The mask of the remaining bits.
abbrev is_mask : ℕ → Bool
is_mask c = (2 ^ 32 - 1) / 2 ^ (32 - c) == 2 ^ c - 1

all_masks : all_below is_mask 32 ≡ true
unfolding all_below
all_masks = refl

mask : (c : ℕ) → c < 32 → (2 ^ 32 - 1) / 2 ^ (32 - c) ≡ 2 ^ c - 1
mask c h =
    (==_iff ((2 ^ 32 - 1) / 2 ^ (32 - c)) (2 ^ c - 1)).0 (all_below→ is_mask 32 c all_masks h)

and_true : (p : Bool) → (p && true) ≡ p
and_true true = refl
and_true false = refl

-- The set below `32 + c` is made of two words.
two_words :
    (f : ℕ → Bool) (c : ℕ)
    → (all_below f 32 && all_below (λ j. f (32 + j)) c) ≡ all_below f (32 + c)
unfolding all_below
two_words f zero = and_true (all_below f 32)
two_words f (suc c) =
    let next : 32 + suc c ≡ suc (32 + c) = omega arith in
    rw (next, swap (all_below f 32) (f (32 + c)) (all_below (λ j. f (32 + j)) c), two_words f c)
      refl
  where
    swap : (p q r : Bool) → (p && (q && r)) ≡ (q && (p && r))
    swap true q r = refl
    swap false true r = refl
    swap false false r = refl

empty_or_full :
    (c : ℕ) (a : ℕ) (f : ℕ → Bool)
    → c < 32
    → (a == 2 ^ c - 1) ≡ all_below f c
    → ((c == 0) || (a == (2 ^ 32 - 1) / 2 ^ (32 - c))) ≡ all_below f c
unfolding all_below
empty_or_full zero a f h e = refl
empty_or_full (suc c) a f h e = rw (mask (suc c) h, e) (ground arith)

All-weaken : (m n : ℕ) (is : List ℕ) → m ≤ n → All (λ i. i < m) is → All (λ i. i < n) is
All-weaken m n [] h p = p
All-weaken m n (i ∷ is) h p = (omega (arith, p.0), All-weaken m n is h p.1)

elem-outside : (n j : ℕ) (is : List ℕ) → n ≤ j → All (λ i. i < n) is → elem j is ≡ false
elem-outside n j [] h p = refl
elem-outside n j (i ∷ is) h p = rw (other i p.0, elem-outside n j is h p.1) refl
  where
    other : (i : ℕ) → i < n → (i == j) ≡ false
    other i q = ground arith

-- If no index from `count` on was marked, the check of the required fields finds exactly whether
-- each of the first `count` was: for a count of at most `PB_MAX_REQUIRED_FIELDS`, 64.
pub required_seen-mark_all :
    (count : ℕ) (indices : List ℕ)
    → count ≤ 64
    → All (λ i. i < count) indices
    → required_seen count (mark_all indices) ≡ all_below (λ i. elem i indices) count
unfolding required_seen
required_seen-mark_all count indices small below =
    let (a, b, e, below_a, below_b, bits_a, bits_b) =
      mark_all-Holds indices (All-weaken count 64 indices small below) in
    elim (range count) [
      | inl low ↦
          let word : count / 32 ≡ 0 = omega arith in
          let place : count % 32 ≡ count = omega arith in
          rw (e, word, place)
            (empty_or_full count a f low
              (full_word count a f (omega arith) below_a bits_a (λ j p q. outside j p)))
      | inr (inl middle) ↦
          let word : count / 32 ≡ 1 = omega arith in
          let place : count % 32 ≡ count - 32 = omega arith in
          let whole : 32 + (count - 32) ≡ count = omega arith in
          rw
            (
              e,
              word,
              place,
              first a bits_a below_a middle.0,
              empty_or_full (count - 32) b (λ j. f (32 + j)) (omega arith)
                  (full_word (count - 32) b (λ j. f (32 + j)) (omega arith) below_b bits_b
                    (λ j p q. outside (32 + j) (omega arith))),
            )
            (two_words f (count - 32) ∙ ap (all_below f) whole)
      | inr (inr top) ↦
          let word : count / 32 ≡ 2 = omega arith in
          let place : count % 32 ≡ 0 = omega arith in
          let whole : 32 + 32 ≡ count = omega arith in
          rw
            (
              e,
              word,
              place,
              first a bits_a below_a (omega arith),
              full_word 32 b (λ j. f (32 + j)) (omega arith) below_b bits_b
                  (λ j p q. absurd (omega arith)),
            )
            (and_true (all_below f 32 && all_below (λ j. f (32 + j)) 32)
              ∙ (two_words f 32 ∙ ap (all_below f) whole))
    ]
  where
    f : ℕ → Bool
    f i = elem i indices

    range : (n : ℕ) → (n < 32) ⊎ ((32 ≤ n) × (n < 64)) ⊎ (64 ≤ n)
    range n = ground arith

    outside : (j : ℕ) → count ≤ j → elem j indices ≡ false
    outside j p = elem-outside count j indices p below

    first :
        (a : ℕ)
        → ((j : ℕ) → j < 32 → bit j a ≡ flag (f j))
        → a < 2 ^ 32
        → 32 ≤ count
        → (a == 2 ^ 32 - 1) ≡ all_below f 32
    first a bits below_a p =
        full_word 32 a f (omega arith) below_a bits (λ j q r. absurd (omega arith))
