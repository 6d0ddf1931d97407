-- ===== src/Session/LogSink.antt =====
-- session/log_sink.go: the log of a session, read by any number of readers while it grows. A
-- reader waits on a channel; `generation` is its identity, which changes when it is replaced, and
-- `notify_closed` says whether the current one is closed.
pub mod Readers
use selenwright.Prelude.{
  ℕ, ◌+◌, Bool, true, false, List, [], ◌∷◌, ◌++◌, Str, length, drop, has_suffix, ltb, if◌then◌else◌,
  ℤ, pos, negsuc,
}

pub record LogSink : Type 0 where
  pub lines : List Str
  pub closed : Bool
  pub generation : ℕ
  pub notify_closed : Bool

abbrev pub newline : Str
newline = 10 ∷ []

unfoldable pub new_log_sink : LogSink
new_log_sink = record { lines = []; closed = false; generation = 0; notify_closed = false }

pub terminated : Str → Str
terminated line = if has_suffix line newline then line else line ++ newline

-- Closing the old channel wakes its readers; the new one is open.
pub write_line : Str → LogSink → LogSink
unfolding terminated
write_line line s =
    if s.closed
    then s
    else record s { lines = s.lines ++ terminated line ∷ []; generation = s.generation + 1 }

pub record Read : Type 0 where
  pub entries : List Str
  pub next : ℕ
  pub closed : Bool
  pub channel : ℕ

-- The index from which to read, brought into the range of the lines.
pub from_index : ℤ → LogSink → ℕ
from_index (negsuc n) s = 0
from_index (pos n) s = if ltb (length s.lines) n then length s.lines else n

pub read_from : ℤ → LogSink → Read
unfolding from_index
read_from index s = record {
  entries = drop (from_index index s) s.lines;
  next = length s.lines;
  closed = s.closed;
  channel = s.generation;
}

unfoldable pub close_sink : LogSink → LogSink
close_sink s = if s.closed then s else record s { closed = true; notify_closed = true }

abbrev pub concat : List Str → Str
concat [] = []
concat (l ∷ ls) = l ++ concat ls

unfoldable pub content : LogSink → Str
content s = concat s.lines
