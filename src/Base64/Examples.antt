-- ===== src/Base64/Examples.antt =====
-- fbase64.c: runs on concrete texts.
use study_hours.Common.{
  ℕ, u32, ◌+◌, ◌*◌, ◌/◌, ◌≤◌, ◌≡◌, refl, leb, if◌then◌else◌, none, some, List, [], ◌∷◌, ◌++◌,
  length, All, IsByte, arith,
}
use study_hours.Base64.{f_b64_ntop, f_b64_pton}
use study_hours.Base64.Exact.{f_b64_pton_exact}
use study_hours.Base64.RoundTrip.{f_b64_pton-f_b64_ntop, f_b64_ntop_bounds}

-- `Mail`
abbrev mail : List ℕ
mail = 77 ∷ 97 ∷ 105 ∷ 108 ∷ []

abbrev array6 : List ℕ
array6 = 1 ∷ 2 ∷ 3 ∷ 4 ∷ 5 ∷ 6 ∷ []

mail_bytes : All IsByte mail
mail_bytes = (omega arith, (omega arith, (omega arith, (omega arith, tt))))

f_b64_pton-f_b64_ntop_example :
    ((f_b64_ntop mail 9).0 ≡ some ((length mail + 2) / 3 * 4))
    × ((rest : List ℕ) × (f_b64_pton (f_b64_ntop mail 9).1 (some array6) 5
          ≡ (some (length mail), some (mail ++ rest))))
f_b64_pton-f_b64_ntop_example =
    f_b64_pton-f_b64_ntop mail array6 9 5 mail_bytes (omega arith) (omega arith) (omega arith)
      (omega arith) (omega arith)

f_b64_ntop_bounds_example :
    ((f_b64_ntop mail 8).0 ≡ (
      if leb 8 ((length mail + 2) / 3 * 4) then none else some (u32 ((length mail + 2) / 3 * 4))))
    × (length (f_b64_ntop mail 8).1 ≤ 8)
f_b64_ntop_bounds_example = f_b64_ntop_bounds mail 8

-- `TWFpbA==` with spaces in it, on a null target.
pton_spaced :
    f_b64_pton (84 ∷ 87 ∷ 32 ∷ 70 ∷ 112 ∷ 98 ∷ 65 ∷ 61 ∷ 10 ∷ 61 ∷ 32 ∷ []) none 0 ≡ (some 4, none)
unfolding f_b64_pton
pton_spaced = refl

-- A `=` in the second place is refused.
pton_early_pad : f_b64_pton (84 ∷ 61 ∷ []) none 0 ≡ (none, none)
unfolding f_b64_pton
pton_early_pad = refl

f_b64_pton_exact_example : (f_b64_pton (f_b64_ntop mail 9).1 (some (1 ∷ 2 ∷ 3 ∷ 4 ∷ [])) 4).0 ≡ none
f_b64_pton_exact_example =
    f_b64_pton_exact mail (1 ∷ 2 ∷ 3 ∷ 4 ∷ []) 9 mail_bytes (omega arith) (omega arith)
      (omega arith) (omega arith)
