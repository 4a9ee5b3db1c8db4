-- ===== src/Nanopb/Wire.antt =====
-- The protocol buffer wire format, stated without the code: what a varint is and what it means.
use study_hours.Common.{
  ℕ, zero, suc, ◌+◌, ◌*◌, ◌/◌, ◌%◌, ◌^◌, ◌≤◌, ◌<◌, ◌≡◌, refl, arith, ltb, if◌then◌else◌, true,
  false, List, [], ◌∷◌, length,
}

-- Every byte but the last has its top bit set.
abbrev pub IsVarint : List ℕ → Type 0
IsVarint [] = ⊥
IsVarint (b ∷ []) = b < 128
IsVarint (b ∷ c ∷ bs) = (128 ≤ b) × (b < 256) × IsVarint (c ∷ bs)

-- Seven bits a byte, the lowest first.
abbrev pub varint_value : List ℕ → ℕ
varint_value [] = 0
varint_value (b ∷ bs) = b % 128 + 128 * varint_value bs

-- The shortest varint of a number below 128 ^ (k + 1).
unfoldable pub wire : ℕ → ℕ → List ℕ
wire zero v = v ∷ []
wire (suc k) v = let rest = wire k (v / 128) in if ltb v 128 then v ∷ [] else (v % 128 + 128) ∷ rest

-- The varint that stands for a `uint64_t`.
unfoldable pub varint : ℕ → List ℕ
unfolding wire
varint v = wire 9 v

pub wire_cons : (k v : ℕ) → (b : ℕ) × (bs : List ℕ) × (wire k v ≡ b ∷ bs)
unfolding wire
wire_cons zero v = (v, [], refl)
wire_cons (suc k) v =
    elim (ltb v 128)
      as (λ t.
        (b : ℕ) × (bs : List ℕ) × ((if t then v ∷ [] else (v % 128 + 128) ∷ wire k (v / 128))
          ≡ b ∷ bs)) [ true ↦ (v, [], refl) | false ↦ (v % 128 + 128, wire k (v / 128), refl) ]

IsVarint-cons : (b : ℕ) (bs : List ℕ) → 128 ≤ b → b < 256 → IsVarint bs → IsVarint (b ∷ bs)
IsVarint-cons b [] p q h = absurd h
IsVarint-cons b (c ∷ bs) p q h = (p, q, h)

wire-IsVarint : (k v : ℕ) → v < 128 ^ suc k → IsVarint (wire k v)
unfolding wire
wire-IsVarint zero v h = omega arith
wire-IsVarint (suc k) v h = ground (
  arith,
  IsVarint-cons (v % 128 + 128) (wire k (v / 128)),
  wire-IsVarint k (v / 128) (omega arith),
)

varint_value-wire : (k v : ℕ) → v < 128 ^ suc k → varint_value (wire k v) ≡ v
unfolding wire
varint_value-wire zero v h = omega arith
varint_value-wire (suc k) v h = ground (arith, varint_value-wire k (v / 128) (omega arith))

length-wire : (k v : ℕ) → (1 ≤ length (wire k v)) × (length (wire k v) ≤ suc k)
unfolding wire
length-wire zero v = omega arith
length-wire (suc k) v = ground (arith, length-wire k (v / 128))

pub varint-IsVarint : (v : ℕ) → v < 2 ^ 64 → IsVarint (varint v)
unfolding varint
varint-IsVarint v h = wire-IsVarint 9 v (omega arith)

pub varint_value-varint : (v : ℕ) → v < 2 ^ 64 → varint_value (varint v) ≡ v
unfolding varint
varint_value-varint v h = varint_value-wire 9 v (omega arith)

pub length-varint : (v : ℕ) → (1 ≤ length (varint v)) × (length (varint v) ≤ 10)
unfolding varint
length-varint v = length-wire 9 v
