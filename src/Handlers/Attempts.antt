-- ===== src/Handlers/Attempts.antt =====
-- The loop of `create` in selenwright.go that asks the started service for a session, until it
-- answers or the attempts are used up.
pub mod Bound
use selenwright.Prelude.{
  ℕ, zero, suc, Bool, true, false, List, [], ◌∷◌, Option, none, some, Str, lit, is_empty, join_path,
  ltb, eqb, ◌&&◌, if◌then◌else◌,
}

-- How httpClient.Do ended, with the status of the reply.
pub data Attempt : Type 0 where
  timed_out cancelled failed : Attempt
  replied : ℕ → Attempt

pub data LoopEnd : Type 0 where
  retries_exceeded client_disconnected session_failed : LoopEnd
  -- the number of attempts, the service's path, and the path and status of the last request
  answered : ℕ → Str → Str → ℕ → LoopEnd

abbrev pub hub_path : Str
hub_path = lit "/wd/hub"

-- `i` is the attempt's number, `u_path` the path of the service's URL and `r_path` that of the
-- request, which each round overwrites. `none` means that the fuel has run out.
pub attempts : ℕ → ℕ → (ℕ → Attempt) → ℕ → Str → Str → Option LoopEnd
attempts zero retry_count outcome i u_path r_path = none
attempts (suc fuel) retry_count outcome i u_path r_path =
    let path = join_path u_path r_path in
    let again = attempts fuel retry_count outcome (suc i) u_path path in
    let on_hub = attempts fuel retry_count outcome (suc i) hub_path path in
    elim (outcome i) [
      | timed_out ↦ if ltb i retry_count then again else some retries_exceeded
      | cancelled ↦ some client_disconnected
      | failed ↦ some session_failed
      | replied code ↦
          if eqb code 404 && is_empty u_path then on_hub else some (answered i u_path path code)
    ]
