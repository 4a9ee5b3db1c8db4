-- ===== src/App/Database.antt =====
-- What both apps rely on of Firebase and of the double arithmetic, which are no part of the
-- repository, as interfaces: the database under one user's node, the doubles, and the formatting
-- of hours to one decimal.
use study_hours.App.Node.{Child, Write, View, IsNode, view_of, apply, apply_all}
use study_hours.Common.{ℕ, ◌≡◌, refl, ◌∙◌, ap, ◌+◌, ◌*◌, ◌≤◌, List, [], ◌∷◌}

-- A snapshot lists the node's children; after a write it shows that write and nothing else changed.
pub record Database (D : Type 0) : Type 1 where
  pub State : Type 0
  pub snapshot : State → List (Child D)
  pub write : Write D → State → State
  pub snapshot_proper : (s : State) → IsNode (snapshot s)
  pub view_write :
      (w : Write D) (s : State) → view_of (snapshot (write w s)) ≡ apply w (view_of (snapshot s))

-- The doubles that the apps compute with: addition, and the double that a decimal text with one
-- digit behind the point is read as, given by its tenths.
pub record Doubles : Type 1 where
  pub Double : Type 0
  pub add : Double → Double → Double
  pub of_tenths : ℕ → Double

-- The tenths of an hour that a duration in milliseconds is printed with, by DecimalFormat("#.#") of
-- Java or by "%.1f": the nearest, either way at a tie. A tenth of an hour has 360000 milliseconds.
pub record Format : Type 0 where
  pub tenths : ℕ → ℕ
  pub tenths_upper : (d : ℕ) → 360000 * tenths d ≤ d + 180000
  pub tenths_lower : (d : ℕ) → d ≤ 360000 * tenths d + 180000

module _ {D : Type 0} (db : Database D) where
  open db use {State, snapshot, write, view_write}

  abbrev pub write_all : List (Write D) → State → State
  write_all [] s = s
  write_all (w ∷ ws) s = write_all ws (write w s)

  abbrev pub view : State → View D
  view s = view_of (snapshot s)

  pub view-write_all :
      (ws : List (Write D)) (s : State) → view (write_all ws s) ≡ apply_all ws (view s)
  view-write_all [] s = refl
  view-write_all (w ∷ ws) s =
      view-write_all ws (write w s) ∙ ap (λ v. apply_all ws v) (view_write w s)
