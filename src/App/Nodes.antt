-- ===== src/App/Nodes.antt =====
-- The node of a ledger under the writes of a check-in, a check-out and a removal.
use study_hours.App.Text.{Text}
use study_hours.App.Database.{Doubles}
use study_hours.App.Leaves.{
  put-in_leaf, put-out_leaf, put-out_leaf-append, in_leaf-append, length-append_one,
  sum_from-append,
}
use study_hours.App.Ledger.{Ledger, Entry, node_of, in_leaf, sum_from, check_in, check_out, give_up}
use study_hours.App.Node.{
  apply_all, set_in, set_out, set_count, set_total, set_session, remove_session,
}
use study_hours.Common.{ℕ, ◌+◌, ◌≡◌, sym, ap, ◌∙◌, none, some, List, [], ◌∷◌, length}

module _ (f : Doubles) (who : Text) where
  open f use {Double, add, of_tenths}

  pub check_in-node_of :
      (l : Ledger) (t : ℕ)
      → apply_all (set_in (length l.entries + 1) t ∷ []) (node_of f who l)
        ≡ node_of f who (check_in t l)
  check_in-node_of l t =
      λ i. record (node_of f who l) { in_at = put-in_leaf l.entries l.running (some t) i }

  pub give_up-node_of :
      (l : Ledger)
      → apply_all (remove_session (length l.entries + 1) ∷ []) (node_of f who l)
        ≡ node_of f who (give_up l)
  give_up-node_of l = λ i. record (node_of f who l) {
    in_at = put-in_leaf l.entries l.running none i;
    out_at = put-out_leaf l.entries i;
  }

  -- The sum of the total that was read and the new hours.
  abbrev pub new_total : Ledger → ℕ → Double
  new_total l r = add (sum_from f (of_tenths 0) l.entries) (of_tenths r)

  -- iOS: the check-in is in the node already.
  pub check_out-node_of :
      (l : Ledger) (e : Entry)
      → l.running ≡ some e.in_time
      → apply_all
          (set_count (length l.entries + 1)
            ∷ set_out (length l.entries + 1) e.out_time
            ∷ set_total (new_total l e.tenths)
            ∷ [])
          (node_of f who l)
        ≡ node_of f who (check_out e l)
  check_out-node_of l e h =
      let es : List Entry = l.entries in
      λ i. record {
        total = some (sym (sum_from-append f (of_tenths 0) es e) i);
        count = some (sym (length-append_one es e) i);
        name = some who;
        in_at = (ap (in_leaf es) h ∙ in_leaf-append es e) i;
        out_at = put-out_leaf-append es e i;
      }

  -- Android: the session is stored as a whole.
  pub set_session-node_of :
      (l : Ledger) (e : Entry)
      → apply_all
          (set_count (length l.entries + 1)
            ∷ set_session (length l.entries + 1) e.in_time e.out_time
            ∷ set_total (new_total l e.tenths)
            ∷ [])
          (node_of f who l)
        ≡ node_of f who (check_out e l)
  set_session-node_of l e =
      let es : List Entry = l.entries in
      λ i. record {
        total = some (sym (sum_from-append f (of_tenths 0) es e) i);
        count = some (sym (length-append_one es e) i);
        name = some who;
        in_at = (put-in_leaf es l.running (some e.in_time) ∙ in_leaf-append es e) i;
        out_at = put-out_leaf-append es e i;
      }
