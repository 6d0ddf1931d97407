-- ===== src/Tests/Events.antt =====
-- A run of the pool of workers.
use selenwright.Prelude.{ℕ, ◌≡◌, refl, true, List, [], ◌∷◌, some, all}
use selenwright.Events.{
  Pool, Step, no_pool, starts, publishes, shuts_down, takes, sends, step, run, pull,
}
use selenwright.Events.Books.{count, publications, is_work}
use selenwright.Events.Progress.{IsIdle}
use selenwright.Events.Draining.{run-drains}

-- One job is sent before the shutdown, and one is published behind it.
abbrev busy_steps : List Step
busy_steps = publishes 7 ∷ sends 0 ∷ takes ∷ shuts_down ∷ publishes 8 ∷ []

abbrev busy_pool : Pool
busy_pool = record {
  started = true;
  stopped = true;
  capacity = 64;
  workers = 2;
  waiting = [];
  buffer = [];
  running = 7 ∷ [];
  spawned = 8 ∷ [];
  ran = [];
}

becomes_busy : run (starts 2 0 ∷ busy_steps) no_pool ≡ some busy_pool
unfolding run step pull
becomes_busy = refl

run-drains_example :
    (more : List Step) × (p' : Pool) × (all is_work more ≡ true)
    × (run more busy_pool ≡ some p')
    × IsIdle p'
    × ((job : ℕ) → count job p'.ran ≡ publications job busy_steps)
run-drains_example = run-drains 2 0 busy_steps busy_pool becomes_busy
