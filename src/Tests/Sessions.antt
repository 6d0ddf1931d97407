-- ===== src/Tests/Sessions.antt =====
-- Runs of the package session.
use selenwright.Prelude.{
  ◌+ℤ◌, ◌≡◌, ◌≤◌, refl, true, false, List, [], ◌∷◌, ◌++◌, lit, ok, ◌==◌, contains_any, pos, arith,
}
use selenwright.Tests.{no_caps}
use selenwright.Session.Watchdog.{
  Event, starts, touches, expires, fires, rounds, new_watchdog, history, stop, expire, touch, step,
  start, fire, run_round,
}
use selenwright.Session.Watchdog.Once.{history-calls, history_after_stop, allowed_calls}
use selenwright.Session.LogSink.{LogSink, read_from}
use selenwright.Session.LogSink.Readers.{writes, closes, run, read_from_resumes}
use selenwright.Session.Sanitize.{
  sanitize, policy_strict, check_labels, check_privileges, cut, cut_at, label_re, bad_file_name,
}
use selenwright.Session.Sanitize.Allowed.{IsAllowed, sanitize-IsAllowed}

-- The timer and a caller of Expire race: both see the deadline pass.
abbrev race : List Event
race = starts (pos 0) ∷ expires ∷ rounds (pos 70) true ∷ fires ∷ fires ∷ touches (pos 71) ∷ []

race_calls : (history (new_watchdog (pos 60)) race).calls ≡ 1
unfolding history new_watchdog step start touch expire fire run_round ◌+ℤ◌
race_calls = refl

history-calls_example :
    (history (new_watchdog (pos 60)) race).calls
    ≤ allowed_calls (history (new_watchdog (pos 60)) race).state
history-calls_example = history-calls (pos 60) race

stop_succeeds : (stop (history (new_watchdog (pos 60)) (starts (pos 0) ∷ []))).1 ≡ true
unfolding history new_watchdog step start stop
stop_succeeds = refl

history_after_stop_example :
    let w =
      history
        (stop (history (new_watchdog (pos 60)) (starts (pos 0) ∷ []))).0
        (expires ∷ fires ∷ []) in
    (w.calls ≡ 0) × ((stop w).1 ≡ false) × ((expire w).1 ≡ false) × ((touch (pos 9) w).1 ≡ false)
history_after_stop_example =
    history_after_stop (pos 60) (starts (pos 0) ∷ []) (expires ∷ fires ∷ []) (pos 9) stop_succeeds

abbrev one_line : LogSink
one_line = record { lines = lit "a" ∷ []; closed = false; generation = 1; notify_closed = false }

read_from_resumes_example :
    (read_from (pos 0) one_line).entries
      ++ (read_from
          (pos (read_from (pos 0) one_line).next)
          (run one_line (writes (lit "b") ∷ closes ∷ []))).entries
    ≡ (read_from (pos 0) (run one_line (writes (lit "b") ∷ closes ∷ []))).entries
read_from_resumes_example =
    read_from_resumes one_line (writes (lit "b") ∷ closes ∷ []) 0 (omega arith)

sanitize_accepts : sanitize no_caps policy_strict false ≡ ok no_caps
unfolding sanitize check_labels check_privileges cut cut_at label_re bad_file_name ◌==◌ contains_any
sanitize_accepts = refl

sanitize-IsAllowed_example : IsAllowed policy_strict false no_caps
sanitize-IsAllowed_example = sanitize-IsAllowed no_caps no_caps policy_strict false sanitize_accepts
