-- ===== src/Session/Watchdog.antt =====
-- session/watchdog.go: the idle timer of a session. Each method's atomic steps are the model's
-- steps; times and durations are in nanoseconds.
pub mod Once
use selenwright.Prelude.{
  ℕ, zero, suc, ◌+◌, Bool, true, false, List, [], ◌∷◌, ℤ, pos, ◌+ℤ◌, leb_ℤ, if◌then◌else◌,
}

pub data WatchdogState : Type 0 where
  active stopped expired : WatchdogState

pub record Watchdog : Type 0 where
  pub timeout : ℤ
  pub state : WatchdogState
  pub deadline : ℤ
  -- ctx has been cancelled
  pub cancelled : Bool
  -- fireOnce and startOnce have run
  pub fire_done : Bool
  pub start_done : Bool
  -- the goroutine of run() has not returned
  pub running : Bool
  -- calls of onExpire, and winners of the swap to `expired` that have not called fire() yet
  pub calls : ℕ
  pub winners : ℕ

abbrev pub is_active : WatchdogState → Bool
is_active active = true
is_active _ = false

unfoldable pub new_watchdog : ℤ → Watchdog
new_watchdog timeout = record {
  timeout = timeout;
  state = active;
  deadline = pos 0;
  cancelled = false;
  fire_done = false;
  start_done = false;
  running = false;
  calls = 0;
  winners = 0;
}

-- `Start` at the time `now`.
unfoldable pub start : ℤ → Watchdog → Watchdog
start now w =
    if w.start_done
    then w
    else record w { start_done = true; deadline = now +ℤ w.timeout; running = true }

unfoldable pub touch : ℤ → Watchdog → Watchdog × Bool
touch now w =
    if is_active w.state then (record w { deadline = now +ℤ w.timeout }, true) else (w, false)

unfoldable pub stop : Watchdog → Watchdog × Bool
stop w =
    if is_active w.state then (record w { state = stopped; cancelled = true }, true) else (w, false)

-- The swap of `Expire` and the cancellation; the call of fire() is a step of its own.
unfoldable pub expire : Watchdog → Watchdog × Bool
expire w =
    if is_active w.state
    then (record w { state = expired; cancelled = true; winners = w.winners + 1 }, true)
    else (w, false)

-- fire(), by a thread that has won the swap.
unfoldable pub fire : Watchdog → Watchdog
fire w = elim w.winners [
  | zero ↦ w
  | suc n ↦
      if w.fire_done
      then record w { winners = n }
      else record w { winners = n; fire_done = true; calls = w.calls + 1 }
]

-- One round of the loop of run() at the time `now`. `woken` is the case of the select where the
-- context is done.
unfoldable pub run_round : ℤ → Bool → Watchdog → Watchdog
unfolding expire
run_round now woken w =
    if w.running
    then (if leb_ℤ w.deadline now
        then record (expire w).0 { running = false }
        else if woken
        then record w { running = false }
        else w)
    else w

pub data Event : Type 0 where
  starts touches : ℤ → Event
  stops expires fires : Event
  rounds : ℤ → Bool → Event

unfoldable pub step : Watchdog → Event → Watchdog
unfolding start touch stop expire fire run_round
step w (starts now) = start now w
step w (touches now) = (touch now w).0
step w stops = (stop w).0
step w expires = (expire w).0
step w fires = fire w
step w (rounds now woken) = run_round now woken w

unfoldable pub history : Watchdog → List Event → Watchdog
history w [] = w
history w (e ∷ es) = history (step w e) es
