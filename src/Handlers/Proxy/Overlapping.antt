-- ===== src/Handlers/Proxy/Overlapping.antt =====
-- What two DELETEs of one session do that overlap.
use selenwright.Prelude.{
  ℕ, suc, ◌<◌, ◌≡◌, ◌∷◌, some, Str, lookup, delete, length, length-delete_present, lookup-delete,
  delete_absent, ◌-◌, ==_refl, arith, subst, if◌then◌else◌,
}
use selenwright.Protect.Queue.{Semaphore}
use selenwright.Protect.Queue.Balance.{Balanced, release_total}
use selenwright.Session.{Session}
use selenwright.Handlers.App.{App, stop_watchdog}
use selenwright.Handlers.Proxy.{commit_delete}
use selenwright.Handlers.Lifecycle.{Accounts}
use selenwright.Handlers.Proxy.Committing.{commit_delete_total}

module _ (s : Semaphore) where
  -- Two DELETEs of one session that have both found it before either takes its lock both commit,
  -- where another session runs: one session is forgotten but two slots are freed, so that a
  -- session is left that the queue does not count.
  commit_delete_twice :
      (leaked p : ℕ) (id : Str) (sess : Session) (app : App s)
      → Accounts s leaked p app
      → lookup id app.sessions ≡ some sess
      → 1 < length app.sessions
      → (app' : App s) × (app'' : App s) × (u : ℕ) × (commit_delete s id sess app
          ≡ some (app', stop_watchdog sess))
        × (commit_delete s id sess app' ≡ some (app'', stop_watchdog sess))
        × Balanced s u p app''.queue
        × (length app''.sessions ≡ suc u)
        × (length app.sessions ≡ suc (length app''.sessions))
  unfolding commit_delete
  commit_delete_twice leaked p id sess app a found more =
      let (app', committed, b, gone, kept) = commit_delete_total s leaked p id sess app a found in
      let shorter : length app.sessions ≡ suc (length app'.sessions) =
        ground (arith, length-delete_present id sess app.sessions a.nodup found, gone) in
      let absent : delete id app'.sessions ≡ app'.sessions =
        delete_absent id app'.sessions
          (ground (arith, gone, lookup-delete id id app.sessions, ==_refl id)) in
      let other : length app'.sessions ≡ suc (length app'.sessions - 1) = omega arith in
      let (q, released, b', _) =
        release_total s (length app'.sessions - 1) p app'.queue
          (subst (λ n. Balanced s n p app'.queue) other b) in
      (
        app',
        record app' {
          queue = q;
          sessions = delete id app'.sessions;
          uploads_removed =
              if app'.enable_file_upload then id ∷ app'.uploads_removed else app'.uploads_removed;
        },
        length app'.sessions - 1,
        committed,
        ground (arith, released),
        b',
        ground (arith, absent, other),
        ground (arith, absent, shorter),
      )
