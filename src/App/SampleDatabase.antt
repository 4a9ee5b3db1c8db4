-- ===== src/App/SampleDatabase.antt =====
-- A database of one node that keeps what Firebase documents: the interface can be met, and the
-- tests run on it.
use study_hours.App.Text.{Text}
use mathlib.Core.Path.{fun_ext}
use study_hours.App.Database.{Database}
use study_hours.App.Node.{
  Child, Write, View, IsNode, view_of, apply, put, in_of, out_of, total_of, count_of, name_of,
  total_hours, num_sessions, sister_name, set_node, set_total, set_count, set_name, set_session,
  set_in, set_out, remove_session,
}
use study_hours.App.Sample.{
  Slot, sessions_of, with_slot, with_slot-IsNode, in_of-with_slot, out_of-with_slot,
  total-sessions_of, count-sessions_of, name-sessions_of,
}
use study_hours.Common.{
  ℕ, ◌≡◌, refl, sym, ap, ◌∙◌, ◌==◌, ==_iff, Bool-cases, inl, inr, Option, none, some, List, [], ◌∷◌,
}

pub record Sample : Type 0 where
  pub total : Option ℕ
  pub count : Option ℕ
  pub name : Option Text
  pub slots : List Slot
  pub proper : IsNode (sessions_of slots)

abbrev pub with_total : Option ℕ → List (Child ℕ) → List (Child ℕ)
with_total none cs = cs
with_total (some t) cs = total_hours t ∷ cs

abbrev pub with_count : Option ℕ → List (Child ℕ) → List (Child ℕ)
with_count none cs = cs
with_count (some n) cs = num_sessions n ∷ cs

abbrev pub with_name : Option Text → List (Child ℕ) → List (Child ℕ)
with_name none cs = cs
with_name (some s) cs = sister_name s ∷ cs

abbrev pub snapshot : Sample → List (Child ℕ)
snapshot d = with_total d.total (with_count d.count (with_name d.name (sessions_of d.slots)))

abbrev pub with_session : ℕ → Option ℕ → Option ℕ → Sample → Sample
with_session k i o d = record d {
  slots = with_slot k i o d.slots;
  proper = with_slot-IsNode k i o d.slots d.proper;
}

abbrev pub write : Write ℕ → Sample → Sample
write (set_node s n t) d = record {
  total = some t;
  count = some n;
  name = some s;
  slots = [];
  proper = tt;
}
write (set_total t) d = record d { total = some t }
write (set_count n) d = record d { count = some n }
write (set_name s) d = record d { name = some s }
write (set_session k i o) d = with_session k (some i) (some o) d
write (set_in k i) d = with_session k (some i) (out_of (sessions_of d.slots) k) d
write (set_out k o) d = with_session k (in_of (sessions_of d.slots) k) (some o) d
write (remove_session k) d = with_session k none none d

with_name-view :
    (n : Option Text) (cs : List (Child ℕ))
    → name_of cs ≡ none
    → view_of (with_name n cs) ≡ record (view_of cs) { name = n }
with_name-view none cs h = λ i. record (view_of cs) { name = h i }
with_name-view (some n) cs h = refl

with_count-view :
    (c : Option ℕ) (cs : List (Child ℕ))
    → count_of cs ≡ none
    → view_of (with_count c cs) ≡ record (view_of cs) { count = c }
with_count-view none cs h = λ i. record (view_of cs) { count = h i }
with_count-view (some n) cs h = refl

with_total-view :
    (t : Option ℕ) (cs : List (Child ℕ))
    → total_of cs ≡ none
    → view_of (with_total t cs) ≡ record (view_of cs) { total = t }
with_total-view none cs h = λ i. record (view_of cs) { total = h i }
with_total-view (some n) cs h = refl

-- What a sample shows, by its parts.
abbrev parts : Sample → View ℕ
parts d = record {
  total = d.total;
  count = d.count;
  name = d.name;
  in_at = in_of (sessions_of d.slots);
  out_at = out_of (sessions_of d.slots);
}

abbrev named : Sample → List (Child ℕ)
named d = with_name d.name (sessions_of d.slots)

abbrev counted : Sample → List (Child ℕ)
counted d = with_count d.count (named d)

view-named : (d : Sample) → view_of (named d) ≡ record (parts d) { total = none; count = none }
view-named d = with_name-view d.name (sessions_of d.slots) (name-sessions_of d.slots) ∙ (λ i.
    record (parts d) { total = total-sessions_of d.slots i; count = count-sessions_of d.slots i })

count-named : (d : Sample) → count_of (named d) ≡ none
count-named d = ap (λ (v : View ℕ). v.count) (view-named d)

view-counted : (d : Sample) → view_of (counted d) ≡ record (parts d) { total = none }
view-counted d =
    with_count-view d.count (named d) (count-named d)
    ∙ ap (λ (v : View ℕ). record v { count = d.count }) (view-named d)

total-counted : (d : Sample) → total_of (counted d) ≡ none
total-counted d = ap (λ (v : View ℕ). v.total) (view-counted d)

view-snapshot : (d : Sample) → view_of (snapshot d) ≡ parts d
view-snapshot d =
    with_total-view d.total (counted d) (total-counted d)
    ∙ ap (λ (v : View ℕ). record v { total = d.total }) (view-counted d)

parts-with_session :
    (k : ℕ) (i o : Option ℕ) (d : Sample)
    → parts (with_session k i o d)
      ≡ record (parts d) { in_at = put k i (parts d).in_at; out_at = put k o (parts d).out_at }
parts-with_session k i o d = λ t. record (parts d) {
  in_at = fun_ext (in_of-with_slot k i o d.slots) t;
  out_at = fun_ext (out_of-with_slot k i o d.slots) t;
}

-- A leaf map is as before where a key gets the value that it has.
put_same : (k : ℕ) (m : ℕ → Option ℕ) → put k (m k) m ≡ m
put_same k m = fun_ext (same k m)
  where
    same : (k : ℕ) (m : ℕ → Option ℕ) (j : ℕ) → put k (m k) m j ≡ m j
    same k m j = elim (Bool-cases (k == j)) [
      | inl e ↦ rw (e, put) (ap m ((==_iff k j).0 e))
      | inr e ↦ rw (e, put) refl
    ]

parts-write : (w : Write ℕ) (d : Sample) → parts (write w d) ≡ apply w (parts d)
parts-write (set_node s n t) d = refl
parts-write (set_total t) d = refl
parts-write (set_count n) d = refl
parts-write (set_name s) d = refl
parts-write (set_session k i o) d = parts-with_session k (some i) (some o) d
parts-write (set_in k i) d =
    parts-with_session k (some i) (out_of (sessions_of d.slots) k) d
    ∙ ap (λ m. record (parts d) { in_at = put k (some i) (parts d).in_at; out_at = m })
        (put_same k (parts d).out_at)
parts-write (set_out k o) d =
    parts-with_session k (in_of (sessions_of d.slots) k) (some o) d
    ∙ ap (λ m. record (parts d) { in_at = m; out_at = put k (some o) (parts d).out_at })
        (put_same k (parts d).in_at)
parts-write (remove_session k) d = parts-with_session k none none d

pub view-write :
    (w : Write ℕ) (d : Sample) → view_of (snapshot (write w d)) ≡ apply w (view_of (snapshot d))
view-write w d = view-snapshot (write w d) ∙ parts-write w d ∙ sym (ap (apply w) (view-snapshot d))

with_name-IsNode :
    (n : Option Text) (cs : List (Child ℕ))
    → name_of cs ≡ none
    → IsNode cs
    → IsNode (with_name n cs)
with_name-IsNode none cs e h = h
with_name-IsNode (some n) cs e h = (e, h)

with_count-IsNode :
    (c : Option ℕ) (cs : List (Child ℕ)) → count_of cs ≡ none → IsNode cs → IsNode (with_count c cs)
with_count-IsNode none cs e h = h
with_count-IsNode (some c) cs e h = (e, h)

with_total-IsNode :
    (t : Option ℕ) (cs : List (Child ℕ)) → total_of cs ≡ none → IsNode cs → IsNode (with_total t cs)
with_total-IsNode none cs e h = h
with_total-IsNode (some t) cs e h = (e, h)

pub snapshot-IsNode : (d : Sample) → IsNode (snapshot d)
snapshot-IsNode d =
    let slots : IsNode (named d) =
      with_name-IsNode d.name (sessions_of d.slots) (name-sessions_of d.slots) d.proper in
    with_total-IsNode d.total (counted d) (total-counted d)
      (with_count-IsNode d.count (named d) (count-named d) slots)

abbrev pub sample_database : Database ℕ
sample_database = record {
  State = Sample;
  snapshot = snapshot;
  write = write;
  snapshot_proper = snapshot-IsNode;
  view_write = view-write;
}

-- A node with nothing in it.
abbrev pub nothing : Sample
nothing = record { total = none; count = none; name = none; slots = []; proper = tt }
