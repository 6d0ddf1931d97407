-- ===== src/Handlers/History.antt =====
-- Histories of a service that WebDriver clients use: its handlers in any order, from an empty start. A
-- handler's writes are taken together, where its request ends; for a DELETE, which looks its session
-- up before it takes the lock, this means that no other DELETE of that session comes in between.
use selenwright.Prelude.{
  ℕ, suc, ◌+◌, ◌≤◌, ◌≡◌, refl, Bool, [], none, some, Str, lookup, length, ℤ, pos, ok, err, subst,
  sym, ap, ◌∙◌, ◌==◌, arith,
}
use selenwright.Protect.Access.{Identity}
use selenwright.Protect.Queue.{
  Semaphore, Queue, Admission, accepted, too_many_requests, queue_full, client_disconnected, new,
  try,
}
use selenwright.Protect.Queue.Balance.{new-Balanced}
use selenwright.Protect.Queue.Admit.{Answers, try-Balanced}
use selenwright.Session.Caps.{WireCaps}
use selenwright.Handlers.App.{App}
use selenwright.Handlers.Attempts.{Attempt}
use selenwright.Handlers.Create.{
  Config, Environment, Body, Reply, CreateEnd, panicked, replies, session_id, create,
}
use selenwright.Handlers.Create.Settling.{create-Settles}
use selenwright.Handlers.Proxy.{Outcome, proxy}
use selenwright.Handlers.Proxy.Ending.{proxy-Accounts}
use selenwright.Handlers.Lifecycle.{
  Accounts, Settles, held_after, AllWebDriver, insert-AllWebDriver,
}
use selenwright.Session.{protocol_playwright}

module _ (s : Semaphore) where
  abbrev pub empty_app : ℕ → Bool → Bool → App s
  empty_app size disabled uploads = record {
    queue = new s size disabled;
    sessions = [];
    enable_file_upload = uploads;
    containers = pos 0;
    uploads_removed = [];
  }

  -- How many requests are starting a session after the queue's answer.
  abbrev pub starting_after : ℕ → Admission (Queue s) → ℕ
  starting_after p (accepted q) = suc p
  starting_after p (too_many_requests q) = p
  starting_after p (queue_full q) = p
  starting_after p (client_disconnected q) = p

  abbrev pub queue_after : Admission (Queue s) → Queue s
  queue_after (accepted q) = q
  queue_after (too_many_requests q) = q
  queue_after (queue_full q) = q
  queue_after (client_disconnected q) = q

  -- How many requests to start a session have ended by a panic.
  abbrev pub lost_after : CreateEnd → ℕ → ℕ
  lost_after (replies r) lost = lost
  lost_after panicked lost = suc lost

  -- `Reaches lost p app`: some history leads to `app`, with `p` requests starting a session, and
  -- `lost` that have panicked while they did.
  pub data Reaches : ℕ → ℕ → App s → Type 0 where
    begins : (size : ℕ) (disabled uploads : Bool) → Reaches 0 0 (empty_app size disabled uploads)
    asks :
        (lost p : ℕ) (app : App s) (no_wait granted : Bool) (r : Admission (Queue s))
        → Reaches lost p app
        → try s app.queue no_wait granted ≡ some r
        → Reaches lost (starting_after p r) (record app { queue = queue_after r })
    creates :
        (lost p : ℕ) (app : App s) (cfg : Config) (env : Environment) (identity : Identity)
        (user : Str) (started : ℕ) (now : ℤ) (body : Body) (empty : WireCaps)
        (outcome : ℕ → Attempt) (reply : Reply) (fuel : ℕ) (app' : App s) (end : CreateEnd)
        → Reaches lost (suc p) app
        → cfg.retry_count + 2 ≤ fuel
        → ((id : Str) → session_id reply ≡ ok id → lookup id app.sessions ≡ none)
        → create s cfg env identity user started now body empty outcome reply fuel app
          ≡ some (app', end)
        → Reaches (lost_after end lost) p app'
    proxies :
        (lost p : ℕ) (app : App s) (now : ℤ) (completes is_delete : Bool) (path : Str)
        (app' : App s) (o : Outcome)
        → Reaches lost p app
        → proxy s now completes is_delete path app ≡ some (app', o)
        → Reaches lost p app'
    proxy_panics :
        (lost p : ℕ) (app : App s) (now : ℤ) (completes is_delete : Bool) (path : Str)
        → Reaches lost p app
        → proxy s now completes is_delete path app ≡ none
        → Reaches lost p app

  asked :
      (leaked p : ℕ) (app : App s) (no_wait granted : Bool) (r : Admission (Queue s))
      → Accounts s leaked p app
      → Answers s (length app.sessions) p r
      → Accounts s leaked (starting_after p r) (record app { queue = queue_after r })
  asked leaked p app no_wait granted (accepted q) a b = record {
    balanced = b;
    nodup = a.nodup;
    contained = a.contained;
  }
  asked leaked p app no_wait granted (too_many_requests q) a b = record {
    balanced = b;
    nodup = a.nodup;
    contained = a.contained;
  }
  asked leaked p app no_wait granted (queue_full q) a b = record {
    balanced = b;
    nodup = a.nodup;
    contained = a.contained;
  }
  asked leaked p app no_wait granted (client_disconnected q) a b = record {
    balanced = b;
    nodup = a.nodup;
    contained = a.contained;
  }

  asked_lost :
      (lost p : ℕ) (r : Admission (Queue s))
      → starting_after (p + lost) r ≡ starting_after p r + lost
  asked_lost lost p (accepted q) = omega arith
  asked_lost lost p (too_many_requests q) = refl
  asked_lost lost p (queue_full q) = refl
  asked_lost lost p (client_disconnected q) = refl

  held_lost : (lost p : ℕ) (end : CreateEnd) → held_after end (p + lost) ≡ p + lost_after end lost
  held_lost lost p (replies r) = refl
  held_lost lost p panicked = omega arith

  settled-AllWebDriver :
      (app app' : App s) (end : CreateEnd)
      → Settles s app app' end
      → AllWebDriver app.sessions
      → AllWebDriver app'.sessions
  settled-AllWebDriver app app' panicked same web =
      subst (λ x. AllWebDriver x.sessions) (sym same) web
  settled-AllWebDriver app app' (replies (err e)) same web = subst AllWebDriver (sym same) web
  settled-AllWebDriver app app' (replies (ok id)) (sess, more, plain) web =
      subst AllWebDriver (sym more) (
        insert-AllWebDriver id sess app.sessions web
          (ap (λ x. x == protocol_playwright) plain ∙ (unfold ◌==◌ in refl)))

  -- In every history of admissions, session starts and proxied requests from an empty start, where no
  -- two DELETEs of one session overlap: the queue's counters are the number of sessions, and that of
  -- the requests that are starting one or have panicked while they did; the semaphore holds exactly
  -- one slot for each of them, within its limit; the ids are distinct, no session is Playwright's,
  -- and at least one container runs for each session (aborted DELETEs may leave more). A start is
  -- assumed to have retry_count + 2 rounds and to get a new id from the service.
  pub Reaches-Accounts :
      (lost p : ℕ) (app : App s)
      → Reaches lost p app
      → (leaked : ℕ) × Accounts s leaked (p + lost) app × AllWebDriver app.sessions
  unfolding lookup
  Reaches-Accounts _ _ _ (begins size disabled uploads) = (
    0,
    record { balanced = new-Balanced s size disabled; nodup = tt; contained = refl },
    λ id sess found. absurd (ground (arith, found)),
  )
  Reaches-Accounts _ _ _ (asks lost p app no_wait granted r h e) =
      let (leaked, a, web) = Reaches-Accounts lost p app h in
      (
        leaked,
        subst (λ n. Accounts s leaked n (record app { queue = queue_after r }))
            (asked_lost lost p r)
            (asked leaked (p + lost) app no_wait granted r a (
              try-Balanced s (length app.sessions) (p + lost) app.queue no_wait granted r a.balanced
                e)),
        web,
      )
  Reaches-Accounts _ _ _
        (creates lost p app cfg env identity user started now body empty outcome reply fuel app' end
          h enough fresh e) =
      let (leaked, a, web) = Reaches-Accounts lost (suc p) app h in
      let more : suc p + lost ≡ suc (p + lost) = omega arith in
      let (app'', end', e', a', settles, _, _) =
        create-Settles s cfg env identity user started now body empty outcome reply fuel leaked
          (p + lost) app enough fresh (subst (λ n. Accounts s leaked n app) more a) in
      let same : app'' ≡ app' = ground (arith, e, e') in
      let same_end : end' ≡ end = ground (arith, e, e') in
      (
        leaked,
        subst (λ x. Accounts s leaked (p + lost_after x lost) app') same_end
            (subst (Accounts s leaked (p + lost_after end' lost)) same
              (subst (λ n. Accounts s leaked n app'') (held_lost lost p end') a')),
        subst (λ x. AllWebDriver x.sessions) same (settled-AllWebDriver app app'' end' settles web),
      )
  Reaches-Accounts _ _ _ (proxies lost p app now completes is_delete path app' o h e) =
      let (leaked, a, web) = Reaches-Accounts lost p app h in
      let (leaked', a', _, web') =
        proxy-Accounts s leaked (p + lost) now completes is_delete path app app' o a web e in
      (leaked', a', web')
  Reaches-Accounts _ _ _ (proxy_panics lost p app now completes is_delete path h e) =
      Reaches-Accounts lost p app h
