-- ===== src/App/Listing.antt =====
-- The sessions that both history screens are to list for a ledger.
use study_hours.App.Dict.{lookup, values, IsAbove, lookup-IsAbove}
use study_hours.App.Ios.History.{Session}
use study_hours.App.Ledger.{Entry, in_leaf, out_leaf}
use study_hours.Common.{
  ℕ, zero, suc, ◌+◌, ◌≡◌, refl, ap, Option, none, some, List, [], ◌∷◌, length, get_elem?, arith,
}

abbrev pub session_of : Entry → Session
session_of e = record { in_time = e.in_time; out_time = e.out_time }

abbrev pub sessions_of : List Entry → List Session
sessions_of [] = []
sessions_of (e ∷ es) = session_of e ∷ sessions_of es

-- The session that two leaves hold, `out` and `in`, with both of them there.
abbrev pub both : Option ℕ → Option ℕ → Option Session
both none i = none
both (some o) none = none
both (some o) (some i) = some (record { in_time = i; out_time = o })

abbrev pub pick {ℓ} : {A : Type ℓ} → Option A → Option A → Option A
pick none old = old
pick (some a) old = some a

pub pick-none {ℓ} : {A : Type ℓ} (o : Option A) → pick o none ≡ o
pick-none none = refl
pick-none (some a) = refl

-- The sessions with their keys, from a first one on.
abbrev pub numbered : ℕ → List Entry → List (ℕ × Session)
numbered k [] = []
numbered k (e ∷ es) = (k, session_of e) ∷ numbered (suc k) es

pub values-numbered : (k : ℕ) (es : List Entry) → values (numbered k es) ≡ sessions_of es
values-numbered k [] = refl
values-numbered k (e ∷ es) = ap (λ l. session_of e ∷ l) (values-numbered (suc k) es)

pub length-numbered : (k : ℕ) (es : List Entry) → length (numbered k es) ≡ length es
length-numbered k [] = refl
length-numbered k (e ∷ es) = ap suc (length-numbered (suc k) es)

pub numbered-IsAbove : (k : ℕ) (es : List Entry) → IsAbove k (numbered k es)
numbered-IsAbove k [] = tt
numbered-IsAbove k (e ∷ es) = (omega arith, numbered-IsAbove (suc k) es)

lookup-numbered_from :
    (k : ℕ) (es : List Entry) (r : Option ℕ) (j : ℕ)
    → lookup (numbered (suc k) es) (suc (k + j)) ≡ both (out_leaf es (suc j)) (in_leaf es r (suc j))
lookup-numbered_from k [] r j = refl
lookup-numbered_from k (e ∷ es) r zero = ground arith
lookup-numbered_from k (e ∷ es) r (suc j) = ground (arith, lookup-numbered_from (suc k) es r j)

-- The leaves of a ledger are the values of the numbered sessions.
pub lookup-numbered :
    (es : List Entry) (r : Option ℕ) (key : ℕ)
    → lookup (numbered 1 es) key ≡ both (out_leaf es key) (in_leaf es r key)
lookup-numbered es r zero =
    ground (arith, lookup-IsAbove 1 0 (numbered 1 es) (numbered-IsAbove 1 es))
lookup-numbered es r (suc j) = ground (arith, lookup-numbered_from 0 es r j)

numbered_at :
    (k : ℕ) (es : List Entry) (row : ℕ)
    → lookup (numbered k es) (k + row) ≡ get_elem? (sessions_of es) row
numbered_at k [] row = refl
numbered_at k (e ∷ es) zero = ground arith
numbered_at k (e ∷ es) (suc row) = ground (arith, numbered_at (suc k) es row)

-- Row `row` of the list has the key behind it.
pub lookup-numbered_row :
    (es : List Entry) (row : ℕ) → lookup (numbered 1 es) (row + 1) ≡ get_elem? (sessions_of es) row
lookup-numbered_row es row = ground (arith, numbered_at 1 es row)
