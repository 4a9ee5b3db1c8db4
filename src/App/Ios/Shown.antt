-- ===== src/App/Ios/Shown.antt =====
-- ViewController.swift lists the sessions of the ledger.
use study_hours.App.Database.{Doubles}
use study_hours.App.Dict.{lookup, lookup_ext, IsAbove}
use study_hours.App.Ios.History.{Session, History, on_value, number_of_rows, cell_for_row}
use study_hours.App.Ios.Listed.{Reads, taken, on_value_lem}
use study_hours.App.Ledger.{Entry, node_of, sum_from, in_leaf, out_leaf}
use study_hours.App.Listing.{
  both, pick, pick-none, numbered, sessions_of, lookup-numbered, lookup-numbered_row,
  length-numbered, numbered-IsAbove,
}
use study_hours.App.Node.{Child, IsNode, IsPlain, view_of, in_of, out_of}
use study_hours.App.Text.{Text}
use study_hours.Common.{
  ℕ, zero, suc, ◌+◌, ◌<◌, ◌≡◌, refl, sym, ap, ◌∙◌, Option, some, List, [], ◌∷◌, ◌++◌, length,
  get_elem?, All, arith,
}

-- The check-out times are there for the screen to see.
abbrev pub IsOut : Entry → Type 0
IsOut e = 0 < e.out_time

taken-both :
    (es : List Entry) (r : Option ℕ) (key : ℕ)
    → All IsOut es
    → taken (out_leaf es key) (in_leaf es r key) ≡ both (out_leaf es key) (in_leaf es r key)
taken-both es r zero h = refl
taken-both [] r (suc key) h = refl
taken-both (e ∷ es) r (suc zero) h = ground (arith, h.0)
taken-both (e ∷ es) r (suc (suc key)) h = taken-both es r (suc key) h.1

IsAbove-zero : (b : ℕ) (d : List (ℕ × Session)) → IsAbove b d → IsAbove 0 d
IsAbove-zero b [] h = tt
IsAbove-zero b ((k, v) ∷ d) h = (omega arith, h.1)

-- The values of a longer list of sessions go before those of its beginning.
pick-numbered :
    (k : ℕ) (old more : List Entry) (key : ℕ)
    → pick (lookup (numbered k (old ++ more)) key) (lookup (numbered k old) key)
      ≡ lookup (numbered k (old ++ more)) key
pick-numbered k [] more key = pick-none (lookup (numbered k more) key)
pick-numbered k (e ∷ old) more key = ground (arith, pick-numbered (suc k) old more key)

module _ (f : Doubles) (who : Text) where
  open f use {Double, of_tenths}

  rows-node_of :
      (old more : List Entry) (running : Option ℕ) (cs : List (Child Double))
      (before h : History Double) (key : ℕ)
      → view_of cs ≡ node_of f who (record { entries = old ++ more; running = running })
      → All IsOut (old ++ more)
      → before.sessions ≡ numbered 1 old
      → Reads cs before h
      → lookup h.sessions key ≡ lookup (numbered 1 (old ++ more)) key
  rows-node_of old more running cs before h key v out b r =
      let now : taken (out_of cs key) (in_of cs key) ≡ lookup (numbered 1 (old ++ more)) key =
        ap (λ w. taken (w.out_at key) (w.in_at key)) v
        ∙ taken-both (old ++ more) running key out
        ∙ sym (lookup-numbered (old ++ more) running key) in
      r.rows key
      ∙ ap (λ d. pick (taken (out_of cs key) (in_of cs key)) (lookup d key)) b
      ∙ ap (λ o. pick o (lookup (numbered 1 old) key)) now
      ∙ pick-numbered 1 old more key

  -- Given the children of a ledger's node in any order, with no keys of other programs and no
  -- check-out at time 0, on a screen that lists the sessions which the ledger began with, none at
  -- first, the observer leaves the ledger's total and one row for each recorded session, in their
  -- order; the running session has none.
  pub on_value-node_of :
      (old more : List Entry) (running : Option ℕ) (cs : List (Child Double))
      (before : History Double)
      → IsNode cs
      → IsPlain cs
      → view_of cs ≡ node_of f who (record { entries = old ++ more; running = running })
      → All IsOut (old ++ more)
      → before.sessions ≡ numbered 1 old
      → (h : History Double) × (on_value cs before ≡ some h)
        × (h.total_text ≡ some (sum_from f (of_tenths 0) (old ++ more)))
        × (number_of_rows h ≡ length (old ++ more))
        × ((row : ℕ) → cell_for_row row h ≡ get_elem? (sessions_of (old ++ more)) row)
        × (h.sessions ≡ numbered 1 (old ++ more))
  on_value-node_of old more running cs before n p v out b =
      let es : List Entry = old ++ more in
      let r : (h : History Double) × (on_value cs before ≡ some h) × Reads cs before h =
        on_value_lem cs before n p in
      let above : IsAbove 0 before.sessions =
        rw b (IsAbove-zero 1 (numbered 1 old) (numbered-IsAbove 1 old)) in
      let same : r.0.sessions ≡ numbered 1 es =
        lookup_ext 0 1 r.0.sessions (numbered 1 es) (r.2.above above) (numbered-IsAbove 1 es)
          (λ key. rows-node_of old more running cs before r.0 key v out b r.2) in
      (
        r.0,
        r.1,
        r.2.text ∙ ap (λ w. pick w.total before.total_text) v,
        ap length same ∙ length-numbered 1 es,
        λ row. ap (λ d. lookup d (row + 1)) same ∙ lookup-numbered_row es row,
        same,
      )
