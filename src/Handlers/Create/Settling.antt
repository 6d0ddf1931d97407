-- ===== src/Handlers/Create/Settling.antt =====
-- Starting a session settles its pending slot, whatever happens on the way.
use selenwright.Prelude.{
  ℕ, suc, ◌+◌, ◌≤◌, ◌≡◌, refl, true, false, ap, sym, ◌∙◌, none, some, Str, lit, lookup, insert,
  length, insert-KeysNodup, length-insert_new, ℤ, pos, negsuc, ◌+ℤ◌, arith, Result, ok, err,
  Result-cases, Option-cases, inl, inr, subst, ◌⊎◌,
}
use selenwright.Protect.Queue.{Semaphore, Queue}
use selenwright.Protect.Queue
use selenwright.Protect.Queue.Balance.{Balanced, drop_total, create-Balanced}
use selenwright.Protect.Access.{Identity}
use selenwright.Session.{Session}
use selenwright.Session.Caps.{WireCaps}
use selenwright.Handlers.App.{App}
use selenwright.Handlers.Attempts.{
  Attempt, LoopEnd, answered, retries_exceeded, client_disconnected, session_failed,
}
use selenwright.Handlers.Attempts.Bound.{attempts_total}
use selenwright.Handlers.Create.{
  Config, StartedService, Environment, Body, unreadable, malformed, parsed, Reply, CreateError,
  CreateEnd, panicked, replies, reply_with, error_reading_request, bad_json_format, Chosen, choose,
  session_id, new_session, fail, fail_started, finish, create, loop_failed, service_startup_failed,
  container_started, register, base_caps, alternatives,
}
use selenwright.Handlers.Lifecycle.{Accounts, Settles, held_after}
use selenwright.Handlers.Create.Choosing.{
  has_null, null_first, is_panicked, nil_first-choose, choose-none, alternatives-has_nil,
}

LoopEnd-cases :
    (e : LoopEnd)
    → ((n : ℕ) × (u_path : Str) × (path : Str) × (code : ℕ) × (e ≡ answered n u_path path code))
      ⊎ ((e ≡ retries_exceeded) ⊎ (e ≡ client_disconnected) ⊎ (e ≡ session_failed))
LoopEnd-cases retries_exceeded = inr (inl refl)
LoopEnd-cases client_disconnected = inr (inr (inl refl))
LoopEnd-cases session_failed = inr (inr (inr refl))
LoopEnd-cases (answered n u_path path code) = inl (n, u_path, path, code, refl)

module _ (s : Semaphore) where
  fail_total :
      (leaked p : ℕ) (app : App s) (e : CreateError)
      → Accounts s leaked (suc p) app
      → (app' : App s) × (fail s app e ≡ some (app', err e))
        × Accounts s leaked p app'
        × (app'.sessions ≡ app.sessions)
  unfolding fail
  fail_total leaked p app e a =
      let (q, dropped, b, _) = drop_total s (length app.sessions) p app.queue a.balanced in
      (
        record app { queue = q },
        ground (arith, dropped),
        record { balanced = b; nodup = a.nodup; contained = a.contained },
        refl,
      )

  fail_started_total :
      (leaked p : ℕ) (app : App s) (e : CreateError)
      → Accounts s leaked (suc p) app
      → (app' : App s) × (fail_started s (container_started s app) e ≡ some (app', err e))
        × Accounts s leaked p app'
        × (app'.sessions ≡ app.sessions)
  unfolding fail_started ◌+ℤ◌
  fail_started_total leaked p app e a =
      fail_total leaked p (record app { containers = app.containers +ℤ pos 1 +ℤ negsuc 0 }) e
        (record { balanced = a.balanced; nodup = a.nodup; contained = ground (arith, a.contained) })

  registered :
      (leaked p : ℕ) (app : App s) (id : Str) (sess : Session)
      → Accounts s leaked (suc p) app
      → lookup id app.sessions ≡ none
      → Accounts s leaked p (register s id sess (container_started s app))
  unfolding ◌+ℤ◌
  registered leaked p app id sess a fresh =
      let longer : suc (length app.sessions) ≡ length (insert id sess app.sessions) =
        ground (arith, length-insert_new id sess app.sessions) in
      record {
        balanced =
            subst (λ n. Balanced s n p (Queue.create s app.queue)) longer
              (create-Balanced s (length app.sessions) p app.queue a.balanced);
        nodup = insert-KeysNodup id sess app.sessions a.nodup;
        contained = ground (arith, a.contained, longer);
      }

  finish_total :
      (cfg : Config) (env : Environment) (identity : Identity) (user : Str) (started : ℕ) (now : ℤ)
      (outcome : ℕ → Attempt) (reply : Reply) (fuel leaked p : ℕ) (chosen : Chosen)
      (service : StartedService) (app : App s)
      → cfg.retry_count + 2 ≤ fuel
      → ((id : Str) → session_id reply ≡ ok id → lookup id app.sessions ≡ none)
      → Accounts s leaked (suc p) app
      → (app' : App s) × (r : Result CreateError Str) × (finish s cfg env identity user started now
            outcome reply fuel chosen service
            (container_started s app)
          ≡ some (app', r))
        × Accounts s leaked p app'
        × Settles s app app' (replies r)
  unfolding finish
  finish_total cfg env identity user started now outcome reply fuel leaked p chosen service app
        enough fresh a =
      let (ending, ended) =
        attempts_total fuel cfg.retry_count outcome 1 service.url.1 (lit "/session")
          (ground arith) in
      elim (LoopEnd-cases ending) [
        | inr other ↦
            let (app', q, a', same) = fail_started_total leaked p app (loop_failed ending) a in
            (app', err (loop_failed ending), ground (arith, ended, q), a', same)
        | inl (n, u_path, path, code, replied) ↦ elim (Result-cases (session_id reply)) [
          | inl (e, unknown) ↦
              let (app', q, a', same) = fail_started_total leaked p app e a in
              (app', err e, ground (arith, ended, replied, unknown, q), a', same)
          | inr (id, known) ↦
              let sess = new_session env identity user started now chosen service u_path in
              (
                register s id sess (container_started s app),
                ok id,
                ground (arith, ended, replied, known),
                registered leaked p app id sess a (fresh id known),
                (sess, refl, unfold new_session in refl),
              )
        ]
      ]

  -- A request that holds a slot ends within retry_count + 2 attempts, and the books are right again:
  -- an error leaves the sessions as they were, gives the slot back and stops what it started; a
  -- success turns the slot into that of one new WebDriver session; and a panic, to which a null that
  -- comes first in firstMatch leads, and only a null in it can, changes nothing, so that the slot stays
  -- taken. The id that the service
  -- answers with is assumed to be a new one.
  pub create-Settles :
      (cfg : Config) (env : Environment) (identity : Identity) (user : Str) (started : ℕ) (now : ℤ)
      (body : Body) (empty : WireCaps) (outcome : ℕ → Attempt) (reply : Reply) (fuel leaked p : ℕ)
      (app : App s)
      → cfg.retry_count + 2 ≤ fuel
      → ((id : Str) → session_id reply ≡ ok id → lookup id app.sessions ≡ none)
      → Accounts s leaked (suc p) app
      → (app' : App s) × (end : CreateEnd) × (create s cfg env identity user started now body empty
            outcome reply fuel app
          ≡ some (app', end))
        × Accounts s leaked (held_after end p) app'
        × Settles s app app' end
        × ((end ≡ panicked) ⊎ (null_first body ≡ false))
        × ((is_panicked end ≡ false) ⊎ (has_null body ≡ true))
  unfolding create
  create-Settles cfg env identity user started now unreadable empty outcome reply fuel leaked p app
        enough fresh a =
      let (app', q, a', same) = fail_total leaked p app error_reading_request a in
      (app', replies (err error_reading_request), ap (reply_with s) q, a', same, inr refl, inl refl)
  create-Settles cfg env identity user started now malformed empty outcome reply fuel leaked p app
        enough fresh a =
      let (app', q, a', same) = fail_total leaked p app bad_json_format a in
      (app', replies (err bad_json_format), ap (reply_with s) q, a', same, inr refl, inl refl)
  create-Settles cfg env identity user started now (parsed desired always first_match) empty outcome
        reply fuel leaked p app enough fresh a =
      let base = base_caps desired always in
      let fmcs = alternatives empty first_match in
      elim (Option-cases (choose cfg env identity.is_admin base fmcs)) [
        | inl nil ↦ (
          app,
          panicked,
          ground (arith, nil),
          a,
          refl,
          inl refl,
          inr (
              sym (alternatives-has_nil empty first_match)
              ∙ choose-none cfg env identity.is_admin base fmcs nil),
        )
        | inr (settled, chose) ↦
            let first =
              nil_first-choose cfg env identity.is_admin base empty first_match settled chose in
            elim (Result-cases settled) [
              | inl (e, rejected) ↦
                  let (app', q, a', same) = fail_total leaked p app e a in
                  (
                    app',
                    replies (err e),
                    ground (arith, chose, rejected, q),
                    a',
                    same,
                    inr first,
                    inl refl,
                  )
              | inr (chosen, accepted) ↦ elim (Option-cases chosen.starter) [
                | inl broken ↦
                    let (app', q, a', same) = fail_total leaked p app service_startup_failed a in
                    (
                      app',
                      replies (err service_startup_failed),
                      ground (arith, chose, accepted, broken, q),
                      a',
                      same,
                      inr first,
                      inl refl,
                    )
                | inr (service, runs) ↦
                    let (app', r, q, a', settles) =
                      finish_total cfg env identity user started now outcome reply fuel leaked p
                        chosen service app enough fresh a in
                    (
                      app',
                      replies r,
                      ground (arith, chose, accepted, runs, q),
                      a',
                      settles,
                      inr first,
                      inl refl,
                    )
              ]
            ]
      ]
