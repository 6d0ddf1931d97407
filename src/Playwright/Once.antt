-- ===== src/Playwright/Once.antt =====
-- The end of a Playwright session: its slot is freed once, however many of the tunnel, the idle timer
-- and Cancel end it; but not where a DELETE by way of selenwright.go has freed it before.
use selenwright.Prelude.{
  ℕ, suc, ◌≡◌, refl, true, false, List, [], ◌∷◌, ◌++◌, some, Str, lit, lookup, insert, delete,
  length, lookup-insert, length-delete_present, delete-KeysNodup, ==_refl, negsuc, ◌+ℤ◌, arith,
  Option-cases, inl, inr, subst,
}
use selenwright.Protect.Queue.{Semaphore, Queue}
use selenwright.Protect.Queue
use selenwright.Protect.Queue.Balance.{Balanced, release_total, release-unbalanced}
use selenwright.Session.{Session}
use selenwright.Session.LogSink.{LogSink, close_sink, new_log_sink}
use selenwright.Handlers.App.{stop_watchdog}
use selenwright.Handlers.Proxy.Committing.{commit_delete_total}
use selenwright.Handlers.Lifecycle.{Accounts}
use selenwright.Playwright.Starting.{World, session_stopped}
use selenwright.Playwright.Ending.{
  Logs, metrics_reason, finalize_playwright_log, end_session, cleanup, cleanups, hub_delete,
}

module _ (s : Semaphore) where
  -- What one run of `cleanup` leaves.
  abbrev pub Ended : ℕ → ℕ → Str → Str → World s → World s → Type 0
  Ended leaked p reason id w w' =
      Accounts s leaked p w'.app
      × (w'.app.sessions ≡ delete id w.app.sessions)
      × (w'.upstreams ≡ w.upstreams +ℤ negsuc 0)
      × (w'.reasons ≡ metrics_reason reason ∷ w.reasons)
      × (lookup id w'.cleaned ≡ some true)

  end_session_total :
      (leaked p : ℕ) (env : Logs) (reason id : Str) (sink : LogSink) (sess : Session) (w : World s)
      → Accounts s leaked p w.app
      → lookup id w.app.sessions ≡ some sess
      → (w' : World s) × (end_session s env reason id sink sess w ≡ some w')
        × Ended leaked p reason id w w'
  unfolding end_session ◌+ℤ◌
  end_session_total leaked p env reason id sink sess w a found =
      let rest = delete id w.app.sessions in
      let shorter : length w.app.sessions ≡ suc (length rest) =
        ground (arith, length-delete_present id sess w.app.sessions a.nodup found) in
      let (files, events) =
        finalize_playwright_log env id (close_sink sink) sess (w.files, w.events) in
      let (q, released, b, _) =
        release_total s (length rest) p w.app.queue
          (subst (λ n. Balanced s n p w.app.queue) shorter a.balanced) in
      (
        record {
          app = record w.app {
            queue = q;
            sessions = rest;
            containers = w.app.containers +ℤ negsuc 0;
          };
          upstreams = w.upstreams +ℤ negsuc 0;
          cleaned = insert id true w.cleaned;
          sinks = insert id (close_sink sink) w.sinks;
          files = files;
          events = session_stopped (env.ggr_sum ++ id) ∷ events;
          reasons = metrics_reason reason ∷ w.reasons;
        },
        ground (arith, released),
        (
          record {
            balanced = b;
            nodup = delete-KeysNodup id w.app.sessions a.nodup;
            contained = ground (arith, a.contained, shorter);
          },
          refl,
          refl,
          refl,
          ground (arith, lookup-insert id id true w.cleaned, ==_refl id),
        ),
      )

  cleanup_total :
      (leaked p : ℕ) (env : Logs) (reason id : Str) (sess : Session) (w : World s)
      → Accounts s leaked p w.app
      → lookup id w.app.sessions ≡ some sess
      → lookup id w.cleaned ≡ some false
      → (w' : World s) × (cleanup s env reason id sess w ≡ some w') × Ended leaked p reason id w w'
  unfolding cleanup
  cleanup_total leaked p env reason id sess w a found unspent =
      elim (Option-cases (lookup id w.sinks)) [
        | inl missing ↦
            let (w', e, ended) =
              end_session_total leaked p env reason id new_log_sink sess w a found in
            (w', ground (arith, unspent, missing, e), ended)
        | inr (sink, there) ↦
            let (w', e, ended) = end_session_total leaked p env reason id sink sess w a found in
            (w', ground (arith, unspent, there, e), ended)
      ]

  cleanups_spent :
      (env : Logs) (reasons : List Str) (id : Str) (sess : Session) (w : World s)
      → lookup id w.cleaned ≡ some true
      → cleanups s env reasons id sess w ≡ some w
  unfolding cleanups cleanup
  cleanups_spent env [] id sess w spent = refl
  cleanups_spent env (r ∷ rs) id sess w spent =
      ground (arith, spent, cleanups_spent env rs id sess w spent)

  -- From right books with the session running, however often and in whatever order the tunnel, the
  -- idle timer and Cancel call its cleanup, there is no panic: the session is forgotten, its slot is
  -- freed and its container and its connection are given up once, the end is counted once, under the
  -- first caller's reason, and the books are right.
  pub cleanups_once :
      (leaked p : ℕ) (env : Logs) (reason : Str) (later : List Str) (id : Str) (sess : Session)
      (w : World s)
      → Accounts s leaked p w.app
      → lookup id w.app.sessions ≡ some sess
      → lookup id w.cleaned ≡ some false
      → (w' : World s) × (cleanups s env (reason ∷ later) id sess w ≡ some w')
        × Ended leaked p reason id w w'
  unfolding cleanups
  cleanups_once leaked p env reason later id sess w a found unspent =
      let (w', e, ended) = cleanup_total leaked p env reason id sess w a found unspent in
      (w', ground (arith, e, cleanups_spent env later id sess w' ended.4), ended)

  ended_unbalanced :
      (u p : ℕ) (env : Logs) (reason id : Str) (sink : LogSink) (sess : Session) (w w' : World s)
      → Balanced s u p w.app.queue
      → end_session s env reason id sink sess w ≡ some w'
      → ¬ (Balanced s u p w'.app.queue)
  unfolding end_session
  ended_unbalanced u p env reason id sink sess w w' b e b' =
      elim (Option-cases (Queue.release s w.app.queue)) [
        | inl panics ↦ ground (arith, panics, e)
        | inr (q, released) ↦
            let same : w'.app.queue ≡ q = ground (arith, released, e) in
            release-unbalanced s u p w.app.queue q b released (subst (Balanced s u p) same b')
      ]

  cleanup_unbalanced :
      (u p : ℕ) (env : Logs) (reason id : Str) (sess : Session) (w w' : World s)
      → Balanced s u p w.app.queue
      → lookup id w.cleaned ≡ some false
      → cleanup s env reason id sess w ≡ some w'
      → ¬ (Balanced s u p w'.app.queue)
  unfolding cleanup
  cleanup_unbalanced u p env reason id sess w w' b unspent e =
      elim (Option-cases (lookup id w.sinks)) [
        | inl missing ↦
            ended_unbalanced u p env reason id new_log_sink sess w w' b
              (ground (arith, unspent, missing, e))
        | inr (sink, there) ↦
            ended_unbalanced u p env reason id sink sess w w' b (ground (arith, unspent, there, e))
      ]

  -- From right books, a DELETE of a running Playwright session by way of selenwright.go frees the
  -- session's slot twice: it panics, or the counter of used slots is no longer the number of the
  -- sessions that are left.
  hub_delete-unbalanced :
      (leaked p : ℕ) (env : Logs) (id : Str) (sess : Session) (w w' : World s)
      → Accounts s leaked p w.app
      → lookup id w.app.sessions ≡ some sess
      → lookup id w.cleaned ≡ some false
      → hub_delete s env id sess w ≡ some w'
      → ¬ (Balanced s (length (delete id w.app.sessions)) p w'.app.queue)
  unfolding hub_delete
  hub_delete-unbalanced leaked p env id sess w w' a found unspent e =
      let (app', committed, b, gone, _) = commit_delete_total s leaked p id sess w.app a found in
      cleanup_unbalanced (length (delete id w.app.sessions)) p env (lit "shutdown") id
        (stop_watchdog sess) (record w { app = app' }) w'
        (subst (λ m. Balanced s (length m) p app'.queue) gone b) unspent
        (ground (arith, committed, e))
