-- ===== src/Nanopb/Ostream/Varint.antt =====
-- `pb_encode_varint` writes the varint of its argument, and what its callers pass to it.
use study_hours.Common.{
  ℕ, zero, suc, ◌+◌, ◌/◌, ◌%◌, ◌^◌, ◌<◌, ◌≡◌, refl, arith, bit_or, bit_or_high, ltb, leb,
  if◌then◌else◌, Bool-cases, inl, inr, some, List, [], ◌∷◌, length, low_bits, u8,
}
use study_hours.Nanopb.Wire.{wire, varint}
use study_hours.Nanopb.Ostream.{
  Ostream, pb_write, fill_buffer, unset_last, write_buffer, pb_encode_varint,
}

-- The buffer before its last byte is cleared.
full : ℕ → ℕ → List ℕ
full zero v = (v % 128 + 128) ∷ []
full (suc k) v =
    let rest = full k (v / 128) in
    if ltb v 128 then (v % 128 + 128) ∷ [] else (v % 128 + 128) ∷ rest

set_top : (v : ℕ) → u8 (bit_or (low_bits v 7) 0x80) ≡ v % 128 + 128
set_top v = omega (arith, bit_or_high 7 (v % 128) 1 (omega arith))

fill_buffer-zero : (k : ℕ) → fill_buffer k 0 ≡ some []
unfolding fill_buffer
fill_buffer-zero zero = refl
fill_buffer-zero (suc k) = refl

fill_buffer-full : (k v : ℕ) → 0 < v → v < 128 ^ suc k → fill_buffer (suc k) v ≡ some (full k v)
unfolding fill_buffer full
fill_buffer-full zero v p h = ground (arith, set_top v, fill_buffer-zero 0)
fill_buffer-full (suc k) v p h =
    ground (arith, set_top v, fill_buffer-zero (suc k), fill_buffer-full k (v / 128))

full_cons : (k v : ℕ) → (bs : List ℕ) × (full k v ≡ (v % 128 + 128) ∷ bs)
unfolding full
full_cons zero v = ([], refl)
full_cons (suc k) v = elim (Bool-cases (ltb v 128)) [
  | inl e ↦ ([], rw e)
  | inr e ↦ (full k (v / 128), rw e)
]

unset_last-cons : (a b : ℕ) (bs : List ℕ) → unset_last (a ∷ b ∷ bs) ≡ a ∷ unset_last (b ∷ bs)
unfolding unset_last
unset_last-cons a b bs = refl

unset_last-full : (k v : ℕ) → v < 128 ^ suc k → unset_last (full k v) ≡ wire k v
unfolding full wire unset_last
unset_last-full zero v h = ground arith
unset_last-full (suc k) v h = elim (Bool-cases (ltb v 128)) [
  | inl e ↦ rw (e) (ground arith)
  | inr e ↦ rw (e) (ground (arith, full_cons k (v / 128), unset_last-full k (v / 128)))
]

length-full : (k v : ℕ) → length (full k v) ≡ length (wire k v)
unfolding full wire
length-full zero v = refl
length-full (suc k) v = ground (arith, length-full k (v / 128))

wire-small : (k v : ℕ) → v < 128 → wire k v ≡ v ∷ []
unfolding wire
wire-small zero v h = refl
wire-small (suc k) v h = ground arith

varint-small : (v : ℕ) → v < 128 → varint v ≡ v ∷ []
unfolding varint
varint-small v h = wire-small 9 v h

module _ {ℓ} {S : Type ℓ} where
  write_buffer-fill_buffer :
      (k v : ℕ) (s : Ostream S)
      → 0 < v
      → v < 128 ^ suc k
      → write_buffer (fill_buffer (suc k) v) s ≡ pb_write (wire k v) (length (wire k v)) s
  write_buffer-fill_buffer k v s p h =
      rw (fill_buffer-full k v p h, unset_last-full k v h, length-full k v)

  -- `pb_encode_varint` never runs over its ten bytes, and writes the varint in one call.
  pub pb_encode_varint-eq-write :
      (v : ℕ) (s : Ostream S)
      → v < 2 ^ 64
      → pb_encode_varint v s ≡ pb_write (varint v) (length (varint v)) s
  unfolding pb_encode_varint
  pb_encode_varint-eq-write v s h = elim (Bool-cases (leb v 0x7F)) [
    | inl e ↦ rw (e, varint-small v (ground arith)) (rw (byte v (ground arith)))
    | inr e ↦ rw e (unfold varint in write_buffer-fill_buffer 9 v s (ground arith) (omega arith))
  ]
    where
      byte : (v : ℕ) → v < 128 → u8 v ≡ v
      byte v h = omega arith
