-- ===== src/Session/LogSink/Readers.antt =====
-- A reader that goes on from where its last read ended sees every line once, in order.
use selenwright.Prelude.{
  ℕ, zero, suc, ◌≤◌, ◌≡◌, refl, sym, List, [], ◌∷◌, ◌++◌, Str, length, length-append, drop, arith,
  pos, Bool-cases, inl, inr,
}
use mathlib.Core.List.{append-nil, append_assoc}
use selenwright.Session.LogSink.{LogSink, write_line, read_from, close_sink, terminated}

pub data Event : Type 0 where
  writes : Str → Event
  closes : Event

pub run : LogSink → List Event → LogSink
run s [] = s
run s (writes line ∷ es) = run (write_line line s) es
run s (closes ∷ es) = run (close_sink s) es

-- What was written later stands behind what was written before.
Grows : LogSink → LogSink → Type 0
Grows s t = (later : List Str) × (t.lines ≡ s.lines ++ later)

run-Grows : (s : LogSink) (es : List Event) → Grows s (run s es)
unfolding run Grows write_line close_sink
run-Grows s [] = ([], sym (append-nil _))
run-Grows s (writes line ∷ es) =
    let (later, e) = run-Grows (write_line line s) es in
    elim (Bool-cases s.closed) [
      | inl shut ↦ (later, ground (arith, e))
      | inr open_still ↦ (
        terminated line ∷ later,
        ground (arith, e, append_assoc s.lines (terminated line ∷ []) later),
      )
    ]
run-Grows s (closes ∷ es) =
    let (later, e) = run-Grows (close_sink s) es in (later, ground (arith, e))

drop-append : (xs ys : List Str) → drop (length xs) (xs ++ ys) ≡ ys
drop-append [] ys = refl
drop-append (x ∷ xs) ys = drop-append xs ys

drop-prefix : (i : ℕ) (xs ys : List Str) → i ≤ length xs → drop i (xs ++ ys) ≡ drop i xs ++ ys
drop-prefix zero xs ys h = refl
drop-prefix (suc i) [] ys h = elim h [ ]
drop-prefix (suc i) (x ∷ xs) ys h = drop-prefix i xs ys (omega arith)

-- A read from where the last one ended returns the lines written in between: whatever is written
-- or closed between the two, the entries of both are those of one read at the later time.
pub read_from_resumes :
    (s : LogSink) (es : List Event) (i : ℕ)
    → i ≤ length s.lines
    → (read_from (pos i) s).entries
        ++ (read_from (pos (read_from (pos i) s).next) (run s es)).entries
      ≡ (read_from (pos i) (run s es)).entries
unfolding read_from Grows
read_from_resumes s es i h =
    let (later, e) = run-Grows s es in
    ground (
      arith,
      e,
      length-append s.lines later,
      drop-append s.lines later,
      drop-prefix i s.lines later h,
    )
