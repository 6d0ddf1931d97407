-- ===== src/Events/Progress.antt =====
-- Whatever the goroutines have left, one of them can go on.
use selenwright.Prelude.{
  ℕ, zero, suc, ◌+◌, ◌*◌, ◌≤◌, ◌<◌, ◌≡◌, refl, Bool, true, false, List, [], ◌∷◌, ◌++◌, some, length,
  length-append, arith, all, inl, inr, sym, subst, ◌⊎◌,
}
use selenwright.Events.{
  Pool, Step, takes, sends, turns_away, finishes, finishes_spawned, pull, step, run,
}
use selenwright.Events.Books.{is_work}

-- Whether nothing is left to do.
abbrev pub IsIdle : Pool → Type 0
IsIdle p = (p.waiting ≡ []) × (p.buffer ≡ []) × (p.running ≡ []) × (p.spawned ≡ [])

-- What is left to do, in steps.
abbrev pub work : Pool → ℕ
work p = 3 * length p.waiting + 2 * length p.buffer + length p.running + length p.spawned

abbrev pub Progress : Pool → Type 0
Progress p =
    (s : Step) × (p' : Pool) × (is_work s ≡ true)
    × (step s p ≡ some p')
    × (work p' < work p)
    × (p'.workers ≡ p.workers)
    × (p'.capacity ≡ p.capacity)

pub pull-first : (x : ℕ) (xs : List ℕ) → pull 0 (x ∷ xs) ≡ some (x, xs)
unfolding pull
pull-first x xs = refl

pub progress :
    (started stopped : Bool) (capacity workers : ℕ) (waiting buffer running spawned ran : List ℕ)
    → 1 ≤ workers
    → 1 ≤ capacity
    → let p : Pool = record {
      started = started;
      stopped = stopped;
      capacity = capacity;
      workers = workers;
      waiting = waiting;
      buffer = buffer;
      running = running;
      spawned = spawned;
      ran = ran;
    } in
      IsIdle p ⊎ Progress p
unfolding step pull
progress started stopped capacity workers waiting buffer (x ∷ running) spawned ran w c = inr (
  finishes 0,
  record {
    started = started;
    stopped = stopped;
    capacity = capacity;
    workers = workers;
    waiting = waiting;
    buffer = buffer;
    running = running;
    spawned = spawned;
    ran = ran ++ x ∷ [];
  },
  refl,
  refl,
  omega arith,
  refl,
  refl,
)
progress started stopped capacity workers waiting (x ∷ buffer) [] spawned ran w c = inr (
  takes,
  record {
    started = started;
    stopped = stopped;
    capacity = capacity;
    workers = workers;
    waiting = waiting;
    buffer = buffer;
    running = x ∷ [];
    spawned = spawned;
    ran = ran;
  },
  refl,
  ground arith,
  omega arith,
  refl,
  refl,
)
progress started true capacity workers (x ∷ waiting) [] [] spawned ran w c = inr (
  turns_away 0,
  record {
    started = started;
    stopped = true;
    capacity = capacity;
    workers = workers;
    waiting = waiting;
    buffer = [];
    running = [];
    spawned = spawned ++ x ∷ [];
    ran = ran;
  },
  refl,
  refl,
  omega (arith, length-append spawned (x ∷ [])),
  refl,
  refl,
)
progress started false capacity workers (x ∷ waiting) [] [] spawned ran w c = inr (
  sends 0,
  record {
    started = started;
    stopped = false;
    capacity = capacity;
    workers = workers;
    waiting = waiting;
    buffer = x ∷ [];
    running = [];
    spawned = spawned;
    ran = ran;
  },
  refl,
  ground arith,
  omega arith,
  refl,
  refl,
)
progress started stopped capacity workers [] [] [] (x ∷ spawned) ran w c = inr (
  finishes_spawned 0,
  record {
    started = started;
    stopped = stopped;
    capacity = capacity;
    workers = workers;
    waiting = [];
    buffer = [];
    running = [];
    spawned = spawned;
    ran = ran ++ x ∷ [];
  },
  refl,
  refl,
  omega arith,
  refl,
  refl,
)
progress started stopped capacity workers [] [] [] [] ran w c = inl (refl, refl, refl, refl)

-- Some steps of work after which nothing is left to do.
abbrev pub Drains : Pool → Type 0
Drains p =
    (ss : List Step) × (p' : Pool) × (all is_work ss ≡ true) × (run ss p ≡ some p') × IsIdle p'

pub drains : (n : ℕ) (p : Pool) → work p ≤ n → 1 ≤ p.workers → 1 ≤ p.capacity → Drains p
unfolding run
drains zero p small w c =
    elim (progress p.started p.stopped p.capacity p.workers p.waiting p.buffer p.running p.spawned
      p.ran w c) [
        | inl idle ↦ ([], p, refl, refl, idle)
        | inr (s, mid, works, steps, less, same_w, same_c) ↦ absurd (omega (arith, small, less))
      ]
drains (suc m) p small w c =
    elim (progress p.started p.stopped p.capacity p.workers p.waiting p.buffer p.running p.spawned
      p.ran w c) [
        | inl idle ↦ ([], p, refl, refl, idle)
        | inr (s, mid, works, steps, less, same_w, same_c) ↦
            let (ss, p', all_work, runs, idle) =
              drains m mid (omega (arith, small, less)) (subst (λ k. 1 ≤ k) (sym same_w) w)
                (subst (λ k. 1 ≤ k) (sym same_c) c) in
            (s ∷ ss, p', ground (arith, works, all_work), ground (arith, steps, runs), idle)
      ]
