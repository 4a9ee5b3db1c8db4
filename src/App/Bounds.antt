-- ===== src/App/Bounds.antt =====
-- The hours that the apps print and add up, against the times of the sessions.
use study_hours.App.Database.{Format}
use study_hours.App.Ledger.{Entry, Ledger, empty}
use study_hours.App.Steps.{Reach, IsEntry, Reach-IsEntry}
use study_hours.Common.{ℕ, ◌+◌, ◌-◌, ◌*◌, ◌≤◌, ◌≡◌, Bool, true, List, [], ◌∷◌, length, All, arith}

abbrev pub sum_tenths : List Entry → ℕ
sum_tenths [] = 0
sum_tenths (e ∷ es) = e.tenths + sum_tenths es

-- In milliseconds.
abbrev pub sum_durations : List Entry → ℕ
sum_durations [] = 0
sum_durations (e ∷ es) = (e.out_time - e.in_time) + sum_durations es

sums_close :
    (admits : ℕ → Bool) (fmt : Format) (es : List Entry)
    → All (IsEntry admits fmt.tenths) es
    → (360000 * sum_tenths es ≤ sum_durations es + 180000 * length es)
      × (sum_durations es ≤ 360000 * sum_tenths es + 180000 * length es)
sums_close admits fmt [] h = (omega arith, omega arith)
sums_close admits fmt (e ∷ es) h =
    let d : ℕ = e.out_time - e.in_time in
    let rest : (360000 * sum_tenths es ≤ sum_durations es + 180000 * length es)
        × (sum_durations es ≤ 360000 * sum_tenths es + 180000 * length es) =
      sums_close admits fmt es h.1 in
    (
      omega (arith, rest.0, h.0.1, fmt.tenths_upper d),
      omega (arith, rest.1, h.0.1, fmt.tenths_lower d),
    )

-- A session of at least half an hour is printed with five tenths or more.
abbrev pub IsLong : Entry → Type 0
IsLong e = (e.in_time + 1800000 ≤ e.out_time) × (5 ≤ e.tenths)

All-IsLong :
    (admits : ℕ → Bool) (fmt : Format) (es : List Entry)
    → ((d : ℕ) → admits d ≡ true → 1800000 ≤ d)
    → All (IsEntry admits fmt.tenths) es
    → All IsLong es
All-IsLong admits fmt [] long h = tt
All-IsLong admits fmt (e ∷ es) long h =
    let d : ℕ = e.out_time - e.in_time in
    let enough : 1800000 ≤ d = long d h.0.0 in
    (
      (omega (arith, enough), omega (arith, enough, h.0.1, fmt.tenths_lower d)),
      All-IsLong admits fmt es long h.1,
    )

-- Each session lasted at least 30 minutes and counts at least half an hour, and the tenths of an
-- hour added up are off from the sum of the durations by at most a twentieth of an hour for each
-- session, either way.
abbrev pub IsCounted : List Entry → Type 0
IsCounted es =
    All IsLong es
    × (360000 * sum_tenths es ≤ sum_durations es + 180000 * length es)
    × (sum_durations es ≤ 360000 * sum_tenths es + 180000 * length es)

pub Reach-IsCounted :
    (admits : ℕ → Bool) (fmt : Format) (l : Ledger)
    → ((d : ℕ) → admits d ≡ true → 1800000 ≤ d)
    → Reach admits fmt.tenths empty l
    → IsCounted l.entries
Reach-IsCounted admits fmt l long r =
    let h : All (IsEntry admits fmt.tenths) l.entries = Reach-IsEntry r in
    let close : (360000 * sum_tenths l.entries
          ≤ sum_durations l.entries + 180000 * length l.entries)
        × (sum_durations l.entries ≤ 360000 * sum_tenths l.entries + 180000 * length l.entries) =
      sums_close admits fmt l.entries h in
    (All-IsLong admits fmt l.entries long h, close.0, close.1)
