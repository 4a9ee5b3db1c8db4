-- ===== src/App/Ledger.antt =====
-- The abstract view of a user's hours: the sessions recorded so far and the one that is running,
-- and the node that stands for them. Both apps implement its operations.
use study_hours.App.Text.{Text}
use study_hours.App.Database.{Doubles}
use study_hours.App.Node.{View}
use study_hours.Common.{ℕ, zero, suc, Option, none, some, List, [], ◌∷◌, ◌++◌, length}

pub record Entry : Type 0 where
  pub in_time : ℕ
  pub out_time : ℕ
  pub tenths : ℕ

pub record Ledger : Type 0 where
  pub entries : List Entry
  pub running : Option ℕ

-- The leaves of the recorded sessions, which have the keys 1, 2 and so on; the one behind them
-- holds the check-in of the running session.
abbrev pub in_leaf : List Entry → Option ℕ → ℕ → Option ℕ
in_leaf es r zero = none
in_leaf [] r (suc zero) = r
in_leaf [] r (suc (suc k)) = none
in_leaf (e ∷ es) r (suc zero) = some e.in_time
in_leaf (e ∷ es) r (suc (suc k)) = in_leaf es r (suc k)

abbrev pub out_leaf : List Entry → ℕ → Option ℕ
out_leaf es zero = none
out_leaf [] (suc k) = none
out_leaf (e ∷ es) (suc zero) = some e.out_time
out_leaf (e ∷ es) (suc (suc k)) = out_leaf es (suc k)

module _ (f : Doubles) where
  open f use {Double, add, of_tenths}

  -- The doubles added up in the order of the sessions.
  abbrev pub sum_from : Double → List Entry → Double
  sum_from t [] = t
  sum_from t (e ∷ es) = sum_from (add t (of_tenths e.tenths)) es

  -- The node that stands for a ledger.
  abbrev pub node_of : Text → Ledger → View Double
  node_of who l = record {
    total = some (sum_from (of_tenths 0) l.entries);
    count = some (length l.entries);
    name = some who;
    in_at = in_leaf l.entries l.running;
    out_at = out_leaf l.entries;
  }

-- A new account.
abbrev pub empty : Ledger
empty = record { entries = []; running = none }

abbrev pub check_in : ℕ → Ledger → Ledger
check_in t l = record l { running = some t }

abbrev pub check_out : Entry → Ledger → Ledger
check_out e l = record { entries = l.entries ++ (e ∷ []); running = none }

abbrev pub give_up : Ledger → Ledger
give_up l = record l { running = none }
