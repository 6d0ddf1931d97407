-- ===== src/Handlers/Attempts/Bound.antt =====
-- The loop ends, and where its requests go.
use selenwright.Prelude.{
  ℕ, zero, suc, ◌+◌, ◌-◌, ◌≤◌, ◌<◌, ◌≡◌, refl, some, Str, lit, is_empty, join_path, clean, split,
  join, ◌==◌, ltb, eqb, arith, ◌⊎◌, inl, inr, Bool-cases, if◌then◌else◌, ◌&&◌,
}
use selenwright.Handlers.Attempts.{
  Attempt, timed_out, cancelled, failed, replied, LoopEnd, retries_exceeded, client_disconnected,
  session_failed, answered, hub_path, attempts,
}

-- One more round is possible when the path of the service is still unknown.
abbrev spare : Str → ℕ
spare u_path = if is_empty u_path then 1 else 0

-- How many rounds the loop has left at most.
abbrev pub rounds_left : ℕ → ℕ → Str → ℕ
rounds_left retry_count i u_path = retry_count - i + spare u_path + 1

Attempt-cases :
    (a : Attempt)
    → (a ≡ timed_out) ⊎ (a ≡ cancelled) ⊎ (a ≡ failed) ⊎ ((code : ℕ) × (a ≡ replied code))
Attempt-cases timed_out = inl refl
Attempt-cases cancelled = inr (inl refl)
Attempt-cases failed = inr (inr (inl refl))
Attempt-cases (replied code) = inr (inr (inr (code, refl)))

-- With one round more than the retries and one for the change to /wd/hub, the loop always ends:
-- whatever the service does, `create` makes at most that many requests to it.
pub attempts_total :
    (fuel retry_count : ℕ) (outcome : ℕ → Attempt) (i : ℕ) (u_path r_path : Str)
    → rounds_left retry_count i u_path ≤ fuel
    → (e : LoopEnd) × (attempts fuel retry_count outcome i u_path r_path ≡ some e)
unfolding attempts
attempts_total zero retry_count outcome i u_path r_path h = absurd (omega arith)
attempts_total (suc fuel) retry_count outcome i u_path r_path h = elim (Attempt-cases (outcome i)) [
  | inl late ↦ elim (Bool-cases (ltb i retry_count)) [
    | inl more ↦
        let (e, p) =
          attempts_total fuel retry_count outcome (suc i) u_path (join_path u_path r_path)
            (ground arith) in
        (e, ground (arith, late, p))
    | inr over ↦ (retries_exceeded, ground (arith, late))
  ]
  | inr (inl gone) ↦ (client_disconnected, rw (gone, attempts))
  | inr (inr (inl broken)) ↦ (session_failed, rw (broken, attempts))
  | inr (inr (inr (code, reply))) ↦ elim (Bool-cases (eqb code 404 && is_empty u_path)) [
    | inl unknown ↦
        let (e, p) =
          attempts_total fuel retry_count outcome (suc i) hub_path (join_path u_path r_path)
            (ground arith) in
        (e, ground (arith, reply, p))
    | inr known ↦ (answered i u_path (join_path u_path r_path) code, ground (arith, reply))
  ]
]

first_path : join_path hub_path (lit "/session") ≡ lit "/wd/hub/session"
unfolding join_path clean split join ◌==◌
first_path = refl

second_path : join_path hub_path (lit "/wd/hub/session") ≡ lit "/wd/hub/wd/hub/session"
unfolding join_path clean split join ◌==◌
second_path = refl

-- A retry after a timeout asks for a path that holds the service's path twice.
attempts_doubles_path :
    (fuel retry_count : ℕ) (outcome : ℕ → Attempt) (code : ℕ)
    → 1 < retry_count
    → outcome 1 ≡ timed_out
    → outcome 2 ≡ replied code
    → attempts (suc (suc fuel)) retry_count outcome 1 hub_path (lit "/session")
      ≡ some (answered 2 hub_path (lit "/wd/hub/wd/hub/session") code)
unfolding attempts
attempts_doubles_path fuel retry_count outcome code h late reply =
    ground (arith, late, reply, first_path, second_path)
