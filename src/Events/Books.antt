-- ===== src/Events/Books.antt =====
-- Every job that is published stands in one place of the pool.
use selenwright.Prelude.{
  ℕ, zero, suc, ◌+◌, ◌≡◌, refl, Bool, true, false, List, [], ◌∷◌, ◌++◌, some, eqb, if◌then◌else◌,
  arith, all, Option-cases, inl, inr, subst,
}
use selenwright.Events.{
  Pool, Step, starts, publishes, shuts_down, takes, sends, turns_away, finishes, finishes_spawned,
  pull, step, run,
}

-- How often a job stands in a list.
abbrev pub count : ℕ → List ℕ → ℕ
count job [] = 0
count job (x ∷ xs) = (if eqb x job then 1 else 0) + count job xs

pub count-append : (job : ℕ) (xs ys : List ℕ) → count job (xs ++ ys) ≡ count job xs + count job ys
count-append job [] ys = omega arith
count-append job (x ∷ xs) ys = omega (arith, count-append job xs ys)

pub count-pull :
    (job i x : ℕ) (xs rest : List ℕ)
    → pull i xs ≡ some (x, rest)
    → count job xs ≡ count job (x ∷ []) + count job rest
unfolding pull
count-pull job i x [] rest h = cc
count-pull job zero x (y ∷ ys) rest h = ground (arith, h)
count-pull job (suc i) x (y ∷ ys) rest h = elim (Option-cases (pull i ys)) [
  | inl none_left ↦ absurd (ground (arith, h, none_left))
  | inr ((z, zs), pulled) ↦
      let same : z ≡ x = ground (arith, h, pulled) in
      let others : y ∷ zs ≡ rest = ground (arith, h, pulled) in
      let below = count-pull job i z ys zs pulled in
      subst (λ r. count job (y ∷ ys) ≡ count job (x ∷ []) + count job r) others
        (subst (λ w. count job (y ∷ ys) ≡ count job (w ∷ []) + count job (y ∷ zs)) same
          (omega (arith, below)))
]

-- How often a job has been published and stands anywhere, done or not.
abbrev pub held : ℕ → Pool → ℕ
held job p =
    count job p.waiting
    + count job p.buffer
    + count job p.running
    + count job p.spawned
    + count job p.ran

abbrev pub published : ℕ → Step → ℕ
published job (publishes j) = count job (j ∷ [])
published job (starts w b) = 0
published job shuts_down = 0
published job takes = 0
published job (sends i) = 0
published job (turns_away i) = 0
published job (finishes i) = 0
published job (finishes_spawned i) = 0

abbrev pub publications : ℕ → List Step → ℕ
publications job [] = 0
publications job (s ∷ ss) = published job s + publications job ss

pub step-held :
    (job : ℕ) (s : Step) (p p' : Pool)
    → step s p ≡ some p'
    → held job p' ≡ held job p + published job s
unfolding step
step-held job (starts w b) p p' e = ground (arith, e)
step-held job shuts_down p p' e = ground (arith, e)
step-held job (publishes j) p p' e =
    ground (arith, e, count-append job p.spawned (j ∷ []), count-append job p.waiting (j ∷ []))
step-held job (sends i) p p' e = elim (Option-cases (pull i p.waiting)) [
  | inl idle ↦ ground (arith, e, idle)
  | inr ((j, rest), pulled) ↦ ground (
    arith,
    e,
    pulled,
    count-pull job i j p.waiting rest pulled,
    count-append job p.buffer (j ∷ []),
  )
]
step-held job (turns_away i) p p' e = elim (Option-cases (pull i p.waiting)) [
  | inl idle ↦ ground (arith, e, idle)
  | inr ((j, rest), pulled) ↦ ground (
    arith,
    e,
    pulled,
    count-pull job i j p.waiting rest pulled,
    count-append job p.spawned (j ∷ []),
  )
]
step-held job takes p p' e = elim (Option-cases (pull 0 p.buffer)) [
  | inl idle ↦ ground (arith, e, idle)
  | inr ((j, rest), pulled) ↦ ground (
    arith,
    e,
    pulled,
    count-pull job 0 j p.buffer rest pulled,
    count-append job p.running (j ∷ []),
  )
]
step-held job (finishes i) p p' e = elim (Option-cases (pull i p.running)) [
  | inl idle ↦ ground (arith, e, idle)
  | inr ((j, rest), pulled) ↦
      ground (
        arith,
        e,
        pulled,
        count-pull job i j p.running rest pulled,
        count-append job p.ran (j ∷ []),
      )
]
step-held job (finishes_spawned i) p p' e = elim (Option-cases (pull i p.spawned)) [
  | inl idle ↦ ground (arith, e, idle)
  | inr ((j, rest), pulled) ↦
      ground (
        arith,
        e,
        pulled,
        count-pull job i j p.spawned rest pulled,
        count-append job p.ran (j ∷ []),
      )
]

pub run-held :
    (job : ℕ) (ss : List Step) (p p' : Pool)
    → run ss p ≡ some p'
    → held job p' ≡ held job p + publications job ss
unfolding run
run-held job [] p p' e = ground (arith, e)
run-held job (s ∷ ss) p p' e = elim (Option-cases (step s p)) [
  | inl panics ↦ absurd (ground (arith, e, panics))
  | inr (mid, stepped) ↦
      let first = step-held job s p mid stepped in
      let others = run-held job ss mid p' (ground (arith, e, stepped)) in
      omega (arith, first, others)
]

-- A step that is no publication, and starts and stops nothing.
abbrev pub is_work : Step → Bool
is_work (starts w b) = false
is_work (publishes j) = false
is_work shuts_down = false
is_work takes = true
is_work (sends i) = true
is_work (turns_away i) = true
is_work (finishes i) = true
is_work (finishes_spawned i) = true

pub publications-work : (job : ℕ) (ss : List Step) → all is_work ss ≡ true → publications job ss ≡ 0
publications-work job [] h = refl
publications-work job (starts w b ∷ ss) h = cc
publications-work job (publishes j ∷ ss) h = cc
publications-work job (shuts_down ∷ ss) h = cc
publications-work job (takes ∷ ss) h = omega (arith, publications-work job ss h)
publications-work job (sends i ∷ ss) h = omega (arith, publications-work job ss h)
publications-work job (turns_away i ∷ ss) h = omega (arith, publications-work job ss h)
publications-work job (finishes i ∷ ss) h = omega (arith, publications-work job ss h)
publications-work job (finishes_spawned i ∷ ss) h = omega (arith, publications-work job ss h)
