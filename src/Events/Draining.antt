-- ===== src/Events/Draining.antt =====
-- Every job that is published runs, and runs once.
use selenwright.Prelude.{
  ℕ, ◌≤◌, ◌≡◌, true, List, [], ◌∷◌, some, arith, all, Option-cases, inl, inr, subst,
}
use selenwright.Events.{
  Pool, Step, no_pool, starts, publishes, shuts_down, takes, sends, turns_away, finishes,
  finishes_spawned, step, run,
}
use selenwright.Events.Books.{count, publications, run-held, is_work, publications-work}
use selenwright.Events.Progress.{IsIdle, work, drains}

-- The pool has been started, with room and with a worker.
abbrev IsReady : Pool → Type 0
IsReady p = (p.started ≡ true) × (1 ≤ p.workers) × (1 ≤ p.capacity)

starts-IsReady :
    (workers buf_size : ℕ) (p : Pool) → step (starts workers buf_size) no_pool ≡ some p → IsReady p
unfolding step
starts-IsReady workers buf_size p e = (ground (arith, e), ground (arith, e), ground (arith, e))

step-IsReady : (s : Step) (p p' : Pool) → step s p ≡ some p' → IsReady p → IsReady p'
unfolding step
step-IsReady (starts w b) p p' e (on, r, t) =
    (ground (arith, e, on), ground (arith, e, on, r), ground (arith, e, on, t))
step-IsReady shuts_down p p' e (on, r, t) =
    (ground (arith, e, on), ground (arith, e, on, r), ground (arith, e, on, t))
step-IsReady (publishes j) p p' e (on, r, t) =
    (ground (arith, e, on), ground (arith, e, on, r), ground (arith, e, on, t))
step-IsReady (sends i) p p' e (on, r, t) =
    (ground (arith, e, on), ground (arith, e, on, r), ground (arith, e, on, t))
step-IsReady (turns_away i) p p' e (on, r, t) =
    (ground (arith, e, on), ground (arith, e, on, r), ground (arith, e, on, t))
step-IsReady takes p p' e (on, r, t) =
    (ground (arith, e, on), ground (arith, e, on, r), ground (arith, e, on, t))
step-IsReady (finishes i) p p' e (on, r, t) =
    (ground (arith, e, on), ground (arith, e, on, r), ground (arith, e, on, t))
step-IsReady (finishes_spawned i) p p' e (on, r, t) =
    (ground (arith, e, on), ground (arith, e, on, r), ground (arith, e, on, t))

run-IsReady : (ss : List Step) (p p' : Pool) → run ss p ≡ some p' → IsReady p → IsReady p'
unfolding run
run-IsReady [] p p' e r = let same : p ≡ p' = ground (arith, e) in subst IsReady same r
run-IsReady (s ∷ ss) p p' e r = elim (Option-cases (step s p)) [
  | inl panics ↦ absurd (ground (arith, e, panics))
  | inr (mid, stepped) ↦
      run-IsReady ss mid p' (ground (arith, e, stepped)) (step-IsReady s p mid stepped r)
]

run_started :
    (workers buf_size : ℕ) (ss : List Step) (p : Pool)
    → run (starts workers buf_size ∷ ss) no_pool ≡ some p
    → IsReady p
unfolding run
run_started workers buf_size ss p e = elim (Option-cases (step (starts workers buf_size) no_pool)) [
  | inl panics ↦ absurd (ground (arith, e, panics))
  | inr (mid, stepped) ↦
      run-IsReady ss mid p (ground (arith, e, stepped))
        (starts-IsReady workers buf_size mid stepped)
]

-- After the start of the pool, with any numbers, and any steps of publishers, workers and Shutdown
-- that end without a panic: the goroutines can go on, with no further event and no panic, until
-- nothing is left to do, and then each job has run exactly as often as it has been published.
pub run-drains :
    (workers buf_size : ℕ) (ss : List Step) (p : Pool)
    → run (starts workers buf_size ∷ ss) no_pool ≡ some p
    → (more : List Step) × (p' : Pool) × (all is_work more ≡ true)
      × (run more p ≡ some p')
      × IsIdle p'
      × ((job : ℕ) → count job p'.ran ≡ publications job ss)
run-drains workers buf_size ss p e =
    let (on, w, c) = run_started workers buf_size ss p e in
    let (more, p', all_work, runs, idle) = drains (work p) p (omega arith) w c in
    let (a, b, d, f) = idle in
    (
      more,
      p',
      all_work,
      runs,
      idle,
      (λ job. ground (
        arith,
        a,
        b,
        d,
        f,
        run-held job (starts workers buf_size ∷ ss) no_pool p e,
        run-held job more p p' runs,
        publications-work job more all_work,
      )),
    )
