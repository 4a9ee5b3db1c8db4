-- ===== src/Nanopb/Sizing.antt =====
-- The two passes of pb_encode.c: a stream without a callback counts the bytes that a stream over a
-- buffer receives.
use study_hours.Common.{
  ℕ, ◌+◌, ◌^◌, ◌≤◌, ◌<◌, ◌≡◌, ◌≢◌, ◌⊎◌, inl, inr, refl, sym, ◌∙◌, arith, u64, ltb, leb, ltb-false,
  lt→ltb, Bool-cases, if◌then◌else◌, Bool, true, false, none, some, List, [], ◌++◌, append_assoc,
  append-nil, length, take_all, length-append,
}
use mathlib.Core.Path.{subst, fun_ext}
use study_hours.Nanopb.Run.{
  Res, done, failed, stuck, M, ◌>>◌, and_then, return, Message, stream_full,
}
use study_hours.Nanopb.Ostream.{Ostream, buf_write, return_error, pb_write, pb_ostream_from_buffer}

-- A counting stream and a stream over a buffer, both without an error.
abbrev pub counting : List ℕ → ℕ → Ostream (List ℕ)
counting state written = record {
  callback = none;
  state = state;
  max_size = 0;
  bytes_written = written;
  errmsg = none;
}

abbrev pub writing : List ℕ → ℕ → ℕ → Ostream (List ℕ)
writing dest max_size written = record {
  callback = some buf_write;
  state = dest;
  max_size = max_size;
  bytes_written = written;
  errmsg = none;
}

abbrev pub Writer : Type 0
Writer = M (Ostream (List ℕ)) (Unit {0})

-- The first pass counts as many bytes as `bs` has, and the second writes `bs` where there is room
-- and fails where there is none.
pub record Emits (m : Writer) (bs : List ℕ) : Type 0 where
  pub sizes :
      (state : List ℕ) (written : ℕ)
      → written < 2 ^ 64
      → m (counting state written) ≡ done tt (counting state (u64 (written + length bs)))
  pub writes :
      (dest : List ℕ) (max_size written : ℕ)
      → written + length bs ≤ max_size
      → max_size < 2 ^ 64
      → m (writing dest max_size written)
        ≡ done tt (writing (dest ++ bs) max_size (written + length bs))
  pub overflows :
      (dest : List ℕ) (max_size written : ℕ)
      → written ≤ max_size
      → max_size < written + length bs
      → max_size + length bs < 2 ^ 64
      → (s : Ostream (List ℕ)) × (m (writing dest max_size written) ≡ failed s)

-- The first pass does not succeed.
pub record Refuses (m : Writer) : Type 0 where
  pub refuses :
      (state : List ℕ) (written : ℕ) (s : Ostream (List ℕ))
      → written < 2 ^ 64
      → m (counting state written) ≢ done tt s

abbrev pub Agrees : Writer → Type 0
Agrees m = ((bs : List ℕ) × Emits m bs) ⊎ Refuses m

pub return-Emits : Emits (return tt) []
return-Emits = record {
  sizes = λ state written h. ground arith;
  writes = λ dest max_size written h k. rw (append-nil dest) (ground arith);
  overflows = λ dest max_size written fits over h. absurd (omega arith);
}

>>-overflows :
    (m k : Writer) (bs cs dest : List ℕ) (max_size written : ℕ)
    → Emits m bs
    → Emits k cs
    → written ≤ max_size
    → max_size < written + (length bs + length cs)
    → max_size + (length bs + length cs) < 2 ^ 64
    → (s : Ostream (List ℕ)) × ((m >> k) (writing dest max_size written) ≡ failed s)
>>-overflows m k bs cs dest max_size written p q fits over h =
    elim (Bool-cases (ltb max_size (written + length bs))) [
      | inl e ↦
          let (s, first) = p.overflows dest max_size written fits (ground arith) (omega arith) in
          (s, rw first)
      | inr e ↦
          let (s, second) =
            q.overflows (dest ++ bs) max_size (written + length bs) (ground arith) (omega arith)
              (omega arith) in
          (s, rw (p.writes dest max_size written (ground arith) (omega arith)) second)
    ]

pub >>-Emits : (m k : Writer) (bs cs : List ℕ) → Emits m bs → Emits k cs → Emits (m >> k) (bs ++ cs)
>>-Emits m k bs cs p q = record {
  sizes = λ state written h.
      rw
        (
          p.sizes state written h,
          q.sizes state (u64 (written + length bs)) (omega arith),
          length-append bs cs,
        )
        (ground arith);
  writes = λ dest max_size written h small.
      rw
        (
          p.writes dest max_size written (omega (arith, length-append bs cs)) small,
          q.writes (dest ++ bs) max_size (written + length bs) (omega (arith, length-append bs cs))
              small,
          length-append bs cs,
          append_assoc dest bs cs,
        )
        (ground arith);
  overflows = λ dest max_size written fits over h.
      >>-overflows m k bs cs dest max_size written p q fits (omega (arith, length-append bs cs))
        (omega (arith, length-append bs cs));
}

and_then-done :
    (r : Res (Ostream (List ℕ)) (Unit {0})) (k : Writer) (s : Ostream (List ℕ))
    → and_then r (λ _. k) ≡ done tt s
    → (mid : Ostream (List ℕ)) × (r ≡ done tt mid) × (k mid ≡ done tt s)
and_then-done (done _ mid) k s h = (mid, refl, h)
and_then-done (failed mid) k s h = cc
and_then-done stuck k s h = cc

pub Refuses->> : (m k : Writer) → Refuses m → Refuses (m >> k)
Refuses->> m k p = record {
  refuses = λ state written s h e.
      let (mid, first, _) = and_then-done (m (counting state written)) k s e in
      p.refuses state written mid h first;
}

pub Emits->>-Refuses : (m k : Writer) (bs : List ℕ) → Emits m bs → Refuses k → Refuses (m >> k)
Emits->>-Refuses m k bs p q = record {
  refuses = λ state written s h e.
      q.refuses state (u64 (written + length bs)) s (omega arith)
        (rw (p.sizes state written h) at e);
}

-- The code runs two agreeing writers one after the other.
pub >>-Agrees : (m k : Writer) → Agrees m → Agrees k → Agrees (m >> k)
>>-Agrees m k (inr p) q = inr (Refuses->> m k p)
>>-Agrees m k (inl (bs, p)) (inl (cs, q)) = inl (bs ++ cs, >>-Emits m k bs cs p q)
>>-Agrees m k (inl (bs, p)) (inr q) = inr (Emits->>-Refuses m k bs p q)

pub return-Agrees : Agrees (return tt)
return-Agrees = inl ([], return-Emits)

pub return_error-Agrees : (msg : Message) → Agrees (return_error msg)
return_error-Agrees msg = inr (record { refuses = λ state written s h e. cc })

pub stuck-Agrees : Agrees (λ s. stuck)
stuck-Agrees = inr (record { refuses = λ state written s h e. cc })

pub if-Agrees : (b : Bool) (m k : Writer) → Agrees m → Agrees k → Agrees (if b then m else k)
if-Agrees true m k p q = p
if-Agrees false m k p q = q

pub pb_write-Emits : (bs : List ℕ) → Emits (pb_write bs (length bs)) bs
unfolding pb_write buf_write
pb_write-Emits bs = record {
  sizes = λ state written h. refl;
  writes = λ dest max_size written h small.
      let no_wrap : u64 (written + length bs) ≡ written + length bs = omega arith in
      rw (take_all bs, no_wrap, ltb-false max_size (written + length bs) h);
  overflows = λ dest max_size written fits over h.
      let no_wrap : u64 (written + length bs) ≡ written + length bs = omega arith in
      (
        record (writing dest max_size written) { errmsg = some stream_full },
        rw (no_wrap, lt→ltb max_size (written + length bs) over),
      );
}

-- Two writers that run alike.
pub same-Agrees : (m k : Writer) → ((s : Ostream (List ℕ)) → m s ≡ k s) → Agrees k → Agrees m
same-Agrees m k e = subst Agrees (sym (fun_ext e))

-- How a run over a buffer ends, where the message is the bytes `bs`.
abbrev pub EndsAs : List ℕ → ℕ → Res (Ostream (List ℕ)) (Unit {0}) → Type 0
EndsAs bs bufsize r =
    ((length bs ≤ bufsize) × (r ≡ done tt (writing bs bufsize (length bs))))
    ⊎ ((bufsize < length bs) × (s : Ostream (List ℕ)) × (r ≡ failed s))
    ⊎ (2 ^ 64 ≤ bufsize + length bs)

pub Emits-EndsAs :
    (m : Writer) (bs : List ℕ) (bufsize : ℕ)
    → Emits m bs
    → bufsize < 2 ^ 64
    → EndsAs bs bufsize (m (pb_ostream_from_buffer bufsize))
unfolding pb_ostream_from_buffer
Emits-EndsAs m bs bufsize p small = elim (Bool-cases (leb (length bs) bufsize)) [
  | inl e ↦ inl (ground arith, p.writes [] bufsize 0 (ground arith) small ∙ ground arith)
  | inr e ↦ elim (Bool-cases (ltb (bufsize + length bs) (2 ^ 64))) [
    | inl f ↦
        let (s, out) = p.overflows [] bufsize 0 (omega arith) (ground arith) (ground arith) in
        inr (inl (ground arith, s, out))
    | inr f ↦ inr (inr (ground arith))
  ]
]
