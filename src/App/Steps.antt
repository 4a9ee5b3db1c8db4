-- ===== src/App/Steps.antt =====
-- The steps of a ledger that the apps are to take: a check-in, a check-out of a session that is
-- long enough, and giving the running session up; and what holds of every ledger so reached.
use study_hours.App.Ledger.{Entry, Ledger, empty, check_in, check_out, give_up}
use study_hours.Common.{ℕ, ◌-◌, ◌≡◌, refl, Bool, true, none, some, [], ◌∷◌, All, All-append}

-- A session from `i` to `o`, with the hours that are printed for it.
abbrev pub entry_of : (ℕ → ℕ) → ℕ → ℕ → Entry
entry_of tenths i o = record { in_time = i; out_time = o; tenths = tenths (o - i) }

-- `admits` is the app's test of a duration, `tenths` its printing of one.
pub data Step (admits : ℕ → Bool) (tenths : ℕ → ℕ) (l m : Ledger) : Type 0 where
  starts : (t : ℕ) → l.running ≡ none → m ≡ check_in t l → Step admits tenths l m
  finishes :
      (i o : ℕ)
      → l.running ≡ some i
      → admits (o - i) ≡ true
      → m ≡ check_out (entry_of tenths i o) l
      → Step admits tenths l m
  discards : (i : ℕ) → l.running ≡ some i → m ≡ give_up l → Step admits tenths l m

pub data Reach (admits : ℕ → Bool) (tenths : ℕ → ℕ) (l : Ledger) : Ledger → Type 0 where
  here : Reach admits tenths l l
  next : {m n : Ledger} → Reach admits tenths l m → Step admits tenths m n → Reach admits tenths l n

-- What an entry of a ledger is to be.
abbrev pub IsEntry : (ℕ → Bool) → (ℕ → ℕ) → Entry → Type 0
IsEntry admits tenths e =
    (admits (e.out_time - e.in_time) ≡ true) × (e.tenths ≡ tenths (e.out_time - e.in_time))

Step-IsEntry :
    (admits : ℕ → Bool) (tenths : ℕ → ℕ) (l m : Ledger)
    → Step admits tenths l m
    → All (IsEntry admits tenths) l.entries
    → All (IsEntry admits tenths) m.entries
Step-IsEntry admits tenths l m (starts t r e) h = rw e h
Step-IsEntry admits tenths l m (finishes i o r a e) h =
    let last : Entry = entry_of tenths i o in
    rw e (All-append (IsEntry admits tenths) l.entries (last ∷ []) h ((a, refl), tt))
Step-IsEntry admits tenths l m (discards i r e) h = rw e h

pub Reach-IsEntry :
    {admits : ℕ → Bool} {tenths : ℕ → ℕ} {l : Ledger}
    → Reach admits tenths empty l
    → All (IsEntry admits tenths) l.entries
Reach-IsEntry here = tt
Reach-IsEntry {admits} {tenths} (next {m} {n} r s) =
    Step-IsEntry admits tenths m n s (Reach-IsEntry r)

pub Reach_trans :
    {admits : ℕ → Bool} {tenths : ℕ → ℕ} {l m n : Ledger}
    → Reach admits tenths l m
    → Reach admits tenths m n
    → Reach admits tenths l n
Reach_trans r here = r
Reach_trans r (next s t) = next (Reach_trans r s) t

Step-All :
    {admits : ℕ → Bool} {tenths : ℕ → ℕ} (P : Entry → Type 0) (l m : Ledger)
    → ((i o : ℕ) → admits (o - i) ≡ true → P (entry_of tenths i o))
    → Step admits tenths l m
    → All P l.entries
    → All P m.entries
Step-All P l m keep (starts t r e) h = rw e h
Step-All {tenths = tenths} P l m keep (finishes i o r a e) h =
    rw e (All-append P l.entries (entry_of tenths i o ∷ []) h (keep i o a, tt))
Step-All P l m keep (discards i r e) h = rw e h

-- What holds of the sessions of a ledger, and of each that is long enough, holds of those of a
-- ledger that is reached from it.
pub Reach-All :
    {admits : ℕ → Bool} {tenths : ℕ → ℕ} {l m : Ledger} (P : Entry → Type 0)
    → ((i o : ℕ) → admits (o - i) ≡ true → P (entry_of tenths i o))
    → All P l.entries
    → Reach admits tenths l m
    → All P m.entries
Reach-All P keep h here = h
Reach-All P keep h (next {m} {n} r s) = Step-All P m n keep s (Reach-All P keep h r)
