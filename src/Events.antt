-- ===== src/Events.antt =====
-- event/event.go: the pool of workers that runs the listeners of events. Jobs are numbers; the two
-- channels are closed by one step, and a step is what one goroutine does at a time, in any order.
pub mod Books
pub mod Progress
pub mod Draining
use selenwright.Prelude.{
  ℕ, zero, suc, Bool, true, false, List, [], ◌∷◌, ◌++◌, Option, none, some, length, ltb, not, ◌||◌,
  if◌then◌else◌,
}

-- `waiting` are the publishers in the last select, `spawned` the jobs in goroutines of their own,
-- `ran` those that are done.
pub record Pool : Type 0 where
  pub started : Bool
  pub stopped : Bool
  pub capacity : ℕ
  pub workers : ℕ
  pub waiting : List ℕ
  pub buffer : List ℕ
  pub running : List ℕ
  pub spawned : List ℕ
  pub ran : List ℕ

abbrev pub no_pool : Pool
no_pool = record {
  started = false;
  stopped = false;
  capacity = 0;
  workers = 0;
  waiting = [];
  buffer = [];
  running = [];
  spawned = [];
  ran = [];
}

abbrev pub default_workers : ℕ
default_workers = 16

abbrev pub default_buf_size : ℕ
default_buf_size = 64

-- The steps. The numbers of those behind `shuts_down` choose one of the goroutines that are ready.
pub data Step : Type 0 where
  starts : ℕ → ℕ → Step
  publishes : ℕ → Step
  shuts_down takes : Step
  sends turns_away finishes finishes_spawned : ℕ → Step

-- One of the list, and the others.
unfoldable pub pull : ℕ → List ℕ → Option (ℕ × List ℕ)
pull i [] = none
pull zero (x ∷ xs) = some (x, xs)
pull (suc i) (x ∷ xs) = elim (pull i xs) [ none ↦ none | some (y, ys) ↦ some (y, x ∷ ys) ]

-- `none` is the panic of a send on a closed channel; a step that is not ready does nothing.
unfoldable pub step : Step → Pool → Option Pool
unfolding pull
step (starts workers buf_size) p =
    if p.started
    then some p
    else some (record p {
      started = true;
      workers = if ltb workers 1 then default_workers else workers;
      capacity = if ltb buf_size 1 then default_buf_size else buf_size;
    })
step (publishes job) p =
    if not p.started || p.stopped
    then some (record p { spawned = p.spawned ++ job ∷ [] })
    else some (record p { waiting = p.waiting ++ job ∷ [] })
step shuts_down p = if p.started then some (record p { stopped = true }) else some p
step (sends i) p = elim (pull i p.waiting) [
  | none ↦ some p
  | some (job, rest) ↦
      if p.stopped
      then none
      else if ltb (length p.buffer) p.capacity
      then some (record p { waiting = rest; buffer = p.buffer ++ job ∷ [] })
      else some p
]
step (turns_away i) p = elim (pull i p.waiting) [
  | none ↦ some p
  | some (job, rest) ↦
      if p.stopped
      then some (record p { waiting = rest; spawned = p.spawned ++ job ∷ [] })
      else some p
]
step takes p = elim (pull 0 p.buffer) [
  | none ↦ some p
  | some (job, rest) ↦
      if ltb (length p.running) p.workers
      then some (record p { buffer = rest; running = p.running ++ job ∷ [] })
      else some p
]
step (finishes i) p = elim (pull i p.running) [
  | none ↦ some p
  | some (job, rest) ↦ some (record p { running = rest; ran = p.ran ++ job ∷ [] })
]
step (finishes_spawned i) p = elim (pull i p.spawned) [
  | none ↦ some p
  | some (job, rest) ↦ some (record p { spawned = rest; ran = p.ran ++ job ∷ [] })
]

unfoldable pub run : List Step → Pool → Option Pool
unfolding step
run [] p = some p
run (s ∷ ss) p = elim (step s p) [ none ↦ none | some p' ↦ run ss p' ]
