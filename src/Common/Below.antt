-- ===== src/Common/Below.antt =====
-- Tests of all numbers below a bound.
use Prim.Native.Nat.{ℕ, zero, suc, ◌<◌}
use mathlib.Core.Path.{◌≡◌, refl, sym, ap, ◌∙◌}
use mathlib.Core.Logic.{◌⊎◌, inl, inr}
use mathlib.Core.Bool.{Bool, true, false, ◌&&◌}
use native.Mathlib.Omega.{arith}

unfoldable pub all_below : (ℕ → Bool) → ℕ → Bool
all_below test zero = true
all_below test (suc n) = test n && all_below test n

pub all_below→ : (test : ℕ → Bool) (n i : ℕ) → all_below test n ≡ true → i < n → test i ≡ true
unfolding all_below
all_below→ test zero i h p = absurd (omega arith)
all_below→ test (suc n) i h p = elim (split i n p) [
  | inl e ↦ ap test e ∙ first (test n) (all_below test n) h
  | inr q ↦ all_below→ test n i (second (test n) (all_below test n) h) q
]
  where
    split : (i n : ℕ) → i < suc n → (i ≡ n) ⊎ (i < n)
    split i n p = ground arith

    first : (a b : Bool) → (a && b) ≡ true → a ≡ true
    first a b h = ground arith

    second : (a b : Bool) → (a && b) ≡ true → b ≡ true
    second a b h = ground arith

pub →all_below :
    (test : ℕ → Bool) (n : ℕ) → ((i : ℕ) → i < n → test i ≡ true) → all_below test n ≡ true
unfolding all_below
→all_below test zero h = refl
→all_below test (suc n) h =
    rw (h n (omega arith), →all_below test n (λ i p. h i (omega arith))) refl

pub iff_Bool : (p q : Bool) → (p ≡ true → q ≡ true) → (q ≡ true → p ≡ true) → p ≡ q
iff_Bool true q f g = sym (f refl)
iff_Bool false true f g = g refl
iff_Bool false false f g = refl
