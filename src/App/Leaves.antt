-- ===== src/App/Leaves.antt =====
-- What the writes of both apps do to the node of a ledger: at the key behind its last session.
use mathlib.Core.Path.{fun_ext}
use study_hours.App.Database.{Doubles}
use study_hours.App.Ledger.{Entry, in_leaf, out_leaf, sum_from}
use study_hours.App.Node.{put}
use study_hours.Common.{
  ℕ, zero, suc, ◌+◌, ◌≡◌, refl, Option, none, some, List, [], ◌∷◌, ◌++◌, length, arith,
}

put-in_leaf_at :
    (es : List Entry) (r v : Option ℕ) (k : ℕ)
    → put (suc (length es)) v (in_leaf es r) k ≡ in_leaf es v k
put-in_leaf_at es r v zero = ground arith
put-in_leaf_at [] r v (suc zero) = ground arith
put-in_leaf_at [] r v (suc (suc k)) = ground arith
put-in_leaf_at (e ∷ es) r v (suc zero) = ground arith
put-in_leaf_at (e ∷ es) r v (suc (suc k)) = ground (arith, put-in_leaf_at es r v (suc k))

put-out_leaf_at :
    (es : List Entry) (k : ℕ) → put (suc (length es)) none (out_leaf es) k ≡ out_leaf es k
put-out_leaf_at es zero = ground arith
put-out_leaf_at [] (suc k) = ground arith
put-out_leaf_at (e ∷ es) (suc zero) = ground arith
put-out_leaf_at (e ∷ es) (suc (suc k)) = ground (arith, put-out_leaf_at es (suc k))

put-out_leaf-append_at :
    (es : List Entry) (e : Entry) (k : ℕ)
    → put (suc (length es)) (some e.out_time) (out_leaf es) k ≡ out_leaf (es ++ (e ∷ [])) k
put-out_leaf-append_at es e zero = ground arith
put-out_leaf-append_at [] e (suc zero) = ground arith
put-out_leaf-append_at [] e (suc (suc k)) = ground arith
put-out_leaf-append_at (x ∷ es) e (suc zero) = ground arith
put-out_leaf-append_at (x ∷ es) e (suc (suc k)) =
    ground (arith, put-out_leaf-append_at es e (suc k))

in_leaf-append_at :
    (es : List Entry) (e : Entry) (k : ℕ)
    → in_leaf es (some e.in_time) k ≡ in_leaf (es ++ (e ∷ [])) none k
in_leaf-append_at [] e zero = refl
in_leaf-append_at [] e (suc zero) = refl
in_leaf-append_at [] e (suc (suc zero)) = refl
in_leaf-append_at [] e (suc (suc (suc k))) = refl
in_leaf-append_at (x ∷ es) e zero = refl
in_leaf-append_at (x ∷ es) e (suc zero) = refl
in_leaf-append_at (x ∷ es) e (suc (suc k)) = in_leaf-append_at es e (suc k)

-- The key that the apps compute is the one behind the last session.
next_key : (es : List Entry) → length es + 1 ≡ suc (length es)
next_key es = omega arith

pub put-in_leaf :
    (es : List Entry) (r v : Option ℕ) → put (length es + 1) v (in_leaf es r) ≡ in_leaf es v
put-in_leaf es r v = rw (next_key es) (fun_ext (put-in_leaf_at es r v))

pub put-out_leaf : (es : List Entry) → put (length es + 1) none (out_leaf es) ≡ out_leaf es
put-out_leaf es = rw (next_key es) (fun_ext (put-out_leaf_at es))

pub put-out_leaf-append :
    (es : List Entry) (e : Entry)
    → put (length es + 1) (some e.out_time) (out_leaf es) ≡ out_leaf (es ++ (e ∷ []))
put-out_leaf-append es e = rw (next_key es) (fun_ext (put-out_leaf-append_at es e))

pub in_leaf-append :
    (es : List Entry) (e : Entry) → in_leaf es (some e.in_time) ≡ in_leaf (es ++ (e ∷ [])) none
in_leaf-append es e = fun_ext (in_leaf-append_at es e)

pub in_leaf-next : (es : List Entry) (r : Option ℕ) → in_leaf es r (length es + 1) ≡ r
in_leaf-next [] r = refl
in_leaf-next (e ∷ es) r = rw (next_key (e ∷ es)) (rw (next_key es) at (in_leaf-next es r))

pub out_leaf-next : (es : List Entry) → out_leaf es (length es + 1) ≡ none
out_leaf-next [] = refl
out_leaf-next (e ∷ es) = rw (next_key (e ∷ es)) (rw (next_key es) at (out_leaf-next es))

pub length-append_one : (es : List Entry) (e : Entry) → length (es ++ (e ∷ [])) ≡ length es + 1
length-append_one [] e = refl
length-append_one (x ∷ es) e = omega (arith, length-append_one es e)

pub sum_from-append :
    (f : Doubles) (t : f.Double) (es : List Entry) (e : Entry)
    → sum_from f t (es ++ (e ∷ [])) ≡ f.add (sum_from f t es) (f.of_tenths e.tenths)
sum_from-append f t [] e = refl
sum_from-append f t (x ∷ es) e = sum_from-append f (f.add t (f.of_tenths x.tenths)) es e
