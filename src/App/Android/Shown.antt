-- ===== src/App/Android/Shown.antt =====
-- GalleryFragment.java lists the sessions of a ledger, or crashes where one is running.
use mathlib.Core.Option.{map as map_option}
use study_hours.App.Android.History.{no_gallery, on_data_change}
use study_hours.App.Android.Listed.{IsClosed, ReadsTo, read_children_lem, read_children-running}
use study_hours.App.Database.{Doubles}
use study_hours.App.Dict.{values, lookup_ext}
use study_hours.App.Ios.History.{Session}
use study_hours.App.Leaves.{in_leaf-next, out_leaf-next}
use study_hours.App.Ledger.{Entry, Ledger, node_of, sum_from, in_leaf, out_leaf}
use study_hours.App.Listing.{
  both, pick, pick-none, numbered, sessions_of, lookup-numbered, values-numbered, numbered-IsAbove,
}
use study_hours.App.Node.{Child, IsNode, IsPlain, view_of, in_of, out_of, is_some}
use study_hours.App.Text.{Text}
use study_hours.Common.{
  ℕ, zero, suc, ◌+◌, ◌≡◌, refl, sym, ap, ◌∙◌, Option, none, some, List, [], ◌∷◌, length,
  Option-cases, inl, inr,
}

leaves_closed :
    (es : List Entry) (key : ℕ) → is_some (in_leaf es none key) ≡ is_some (out_leaf es key)
leaves_closed es zero = refl
leaves_closed [] (suc zero) = refl
leaves_closed [] (suc (suc key)) = refl
leaves_closed (e ∷ es) (suc zero) = refl
leaves_closed (e ∷ es) (suc (suc key)) = leaves_closed es (suc key)

module _ (f : Doubles) (who : Text) {F : Type 0} (to_float : f.Double → F) where
  open f use {Double, of_tenths}

  on_data_change-closed :
      (l : Ledger) (cs : List (Child Double))
      → IsNode cs
      → IsPlain cs
      → view_of cs ≡ node_of f who l
      → l.running ≡ none
      → on_data_change to_float cs
        ≡ some (some (to_float (sum_from f (of_tenths 0) l.entries)), sessions_of l.entries)
  on_data_change-closed l cs n p v e =
      let closed : IsClosed to_float cs = λ key.
        ap (λ w. is_some (w.in_at key)) v
        ∙ ap (λ r. is_some (in_leaf l.entries r key)) e
        ∙ leaves_closed l.entries key
        ∙ ap (λ w. is_some (w.out_at key)) (sym v) in
      let r : ReadsTo to_float cs no_gallery =
        read_children_lem to_float cs no_gallery n p closed in
      let same : r.0.map ≡ numbered 1 l.entries =
        lookup_ext 0 1 r.0.map (numbered 1 l.entries) (r.2.above tt) (numbered-IsAbove 1 l.entries)
          (λ key.
            r.2.rows key
            ∙ pick-none (both (out_of cs key) (in_of cs key))
            ∙ ap (λ w. both (w.out_at key) (w.in_at key)) v
            ∙ sym (lookup-numbered l.entries l.running key)) in
      rw (r.1, on_data_change)
        (λ i. some (
          (r.2.text ∙ ap (λ w. pick (map_option to_float w.total) none) v) i,
          (ap values same ∙ values-numbered 1 l.entries) i,
        ))

  on_data_change-running :
      (l : Ledger) (cs : List (Child Double)) (t : ℕ)
      → view_of cs ≡ node_of f who l
      → l.running ≡ some t
      → on_data_change to_float cs ≡ none
  on_data_change-running l cs t v e =
      let key : ℕ = length l.entries + 1 in
      let in_there : in_of cs key ≡ some t =
        ap (λ w. w.in_at key) v ∙ in_leaf-next l.entries l.running ∙ e in
      let out_missing : out_of cs key ≡ none = ap (λ w. w.out_at key) v ∙ out_leaf-next l.entries in
      rw (read_children-running to_float cs no_gallery key t in_there out_missing, on_data_change)
        refl

  -- What the screen is to show for a ledger: nothing, for a crash, while a session is running.
  abbrev pub gallery_of : Option ℕ → List Entry → Option (Option F × List Session)
  gallery_of none es = some (some (to_float (sum_from f (of_tenths 0) es)), sessions_of es)
  gallery_of (some t) es = none

  -- Given the children of a ledger's node, in any order and with no keys of other programs, the
  -- screen shows the ledger's total, rounded to a Float, and lists its sessions in order; but while a session is
  -- running, as the iOS app stores it, it crashes.
  pub on_data_change-node_of :
      (l : Ledger) (cs : List (Child Double))
      → IsNode cs
      → IsPlain cs
      → view_of cs ≡ node_of f who l
      → on_data_change to_float cs ≡ gallery_of l.running l.entries
  on_data_change-node_of l cs n p v = elim (Option-cases l.running) [
    | inl e ↦ on_data_change-closed l cs n p v e ∙ ap (λ r. gallery_of r l.entries) (sym e)
    | inr (t, e) ↦ on_data_change-running l cs t v e ∙ ap (λ r. gallery_of r l.entries) (sym e)
  ]
