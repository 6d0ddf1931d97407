-- ===== src/Handlers/Proxy/Ending.antt =====
-- How a request to a session ends: by a DELETE, by a panic, and with which books.
use selenwright.Prelude.{
  refl, Option, sym, ◌⊎◌, ℕ, ◌≤◌, ◌≡◌, Bool, true, false, [], ◌∷◌, none, some, Str, lookup, delete,
  length, split, ==_refl, ◌↔◌, ℤ, arith, Option-cases, Bool-cases, inl, inr, subst, ◌==◌, ◌&&◌, eqb,
}
use selenwright.Protect.Queue.{Semaphore}
use selenwright.Session.{Session, is_playwright}
use selenwright.Handlers.App.{App, stop_watchdog}
use selenwright.Handlers.Proxy.{
  Outcome, error_page, vendor_path, vendor_prefix, target, get_or_nil, serve_http, ended,
  proxy_session, proxy,
}
use selenwright.Handlers.Lifecycle.{Accounts, AllWebDriver}
use selenwright.Session.Watchdog.{Watchdog, is_active, stop}
use selenwright.Handlers.Proxy.Committing.{
  commit_delete_total, cleanup-Accounts, four_fragments, leaves, is_aborted, serve_http-aborted,
  cancelled, cleanup-WebDriver,
}
use selenwright.Handlers.Proxy.Answering.{proxy_total}

-- Whether the handler ends by a panic: its own, or that by which ServeHTTP aborts it.
abbrev pub IsPanic : {s : Semaphore} → Option (App s × Outcome) → Type 0
IsPanic none = Unit
IsPanic (some (app, o)) = is_aborted o ≡ true

-- The timer is stopped and its context cancelled, unless it had stopped or expired before.
abbrev pub TimerStopped : Session → Session → Type 0
TimerStopped sess sess' =
    (sess.watchdog ≡ none)
    ⊎ ((w : Watchdog) × (w' : Watchdog) × (sess.watchdog ≡ some w)
        × (sess'.watchdog ≡ some w')
        × (is_active w'.state ≡ false)
        × ((is_active w.state ≡ false) ⊎ (w'.cancelled ≡ true)))

stop_watchdog-TimerStopped : (sess : Session) → TimerStopped sess (stop_watchdog sess)
unfolding stop_watchdog stop
stop_watchdog-TimerStopped sess = elim (Option-cases sess.watchdog) [
  | inl no_timer ↦ inl no_timer
  | inr (w, timer) ↦ inr (
    w,
    (stop w).0,
    timer,
    ground (arith, timer),
    ground arith,
    (elim (Bool-cases (is_active w.state)) [
      | inl on ↦ inr (ground (arith, on))
      | inr off ↦ inl off
    ]),
  )
]

module _ (s : Semaphore) where
  -- From right books, a DELETE of a WebDriver session (a path of three fragments) frees its slot,
  -- forgets the session, stops its idle timer, is sent on to the session's container and, unless
  -- ServeHTTP aborts the handler, cancels the container; the books are right again, with one
  -- container left behind after an abort.
  pub proxy-delete :
      (leaked p : ℕ) (now : ℤ) (completes : Bool) (path root prefix id : Str) (sess : Session)
      (app : App s)
      → Accounts s leaked p app
      → split b'/' path ≡ root ∷ prefix ∷ id ∷ []
      → lookup id app.sessions ≡ some sess
      → is_playwright sess ≡ false
      → (app' : App s) × (sess' : Session) × (proxy s now completes true path app
          ≡ some (
            app',
            serve_http completes (
                ended sess'
                  (target app.enable_file_upload (root ∷ prefix ∷ id ∷ []) path id sess')),
          ))
        × TimerStopped sess sess'
        × Accounts s (leaves completes leaked) p app'
        × (app'.sessions ≡ delete id app.sessions)
  unfolding proxy proxy_session
  proxy-delete leaked p now completes path root prefix id sess app a parts found web =
      let (app', committed, b, gone, kept) = commit_delete_total s leaked p id sess app a found in
      (
        cancelled s completes app',
        stop_watchdog sess,
        ground (arith, parts, found, committed, cleanup-WebDriver s completes id sess app' web),
        stop_watchdog-TimerStopped sess,
        cleanup-Accounts s leaked p completes id sess app app' a found b gone kept,
        ground (arith, gone),
      )

  own_panic :
      (now : ℤ) (completes is_delete : Bool) (path root prefix id : Str) (sess : Session)
      (app : App s)
      → split b'/' path ≡ root ∷ prefix ∷ id ∷ vendor_prefix ∷ []
      → lookup id app.sessions ≡ some sess
      → proxy s now completes is_delete path app ≡ none
  unfolding proxy proxy_session vendor_path
  own_panic now completes is_delete path root prefix id sess app parts found =
      ground (arith, parts, found, ==_refl vendor_prefix)

  unknown_id :
      (now : ℤ) (completes is_delete : Bool) (path root prefix id : Str) (app : App s)
      → split b'/' path ≡ root ∷ prefix ∷ id ∷ vendor_prefix ∷ []
      → lookup id app.sessions ≡ none
      → proxy s now completes is_delete path app ≡ some (app, serve_http completes error_page)
  unfolding proxy
  unknown_id now completes is_delete path root prefix id app parts unknown =
      ground (arith, parts, unknown)

  -- From right books, where all sessions are WebDriver's, the handler ends by a panic exactly where
  -- ServeHTTP aborts it, or on a path of four fragments whose last is the vendor prefix and whose
  -- third names a session.
  pub proxy_panics_iff :
      (leaked p : ℕ) (now : ℤ) (completes is_delete : Bool) (path : Str) (app : App s)
      → Accounts s leaked p app
      → AllWebDriver app.sessions
      → IsPanic (proxy s now completes is_delete path app) ↔ (
          (completes ≡ false)
          ⊎ ((root : Str) × (prefix : Str) × (id : Str) × (sess : Session) × (split b'/' path
                ≡ root ∷ prefix ∷ id ∷ vendor_prefix ∷ [])
              × (lookup id app.sessions ≡ some sess)))
  proxy_panics_iff leaked p now completes is_delete path app a web =
      let answer = proxy s now completes is_delete path app in
      let page = serve_http-aborted completes error_page refl in
      elim (Bool-cases
        (eqb (length (split b'/' path)) 4 && get_or_nil (split b'/' path) 3 == vendor_prefix)) [
          | inr safe ↦
              let (app', o, _, q, _, _, aborts, _) =
                proxy_total s leaked p now completes is_delete path app a web safe in
              (
                (λ panics.
                    let stops : is_aborted o ≡ true = subst IsPanic q panics in
                    inl (ground (arith, aborts, stops))),
                (λ cause. subst IsPanic (sym q) (elim cause [
                  | inl abort ↦ ground (arith, aborts, abort)
                  | inr (root, prefix, id, sess, parts, found) ↦
                      absurd (ground (arith, safe, parts, ==_refl vendor_prefix))
                ])),
              )
          | inl unsafe ↦
              let (root, prefix, id, parts) = four_fragments (split b'/' path) unsafe in
              elim (Option-cases (lookup id app.sessions)) [
                | inl unknown ↦
                    let q =
                      unknown_id now completes is_delete path root prefix id app parts unknown in
                    (
                      (λ panics.
                          let stops : is_aborted (serve_http completes error_page) ≡ true =
                            subst IsPanic q panics in
                          inl (ground (arith, page, stops))),
                      (λ cause. subst IsPanic (sym q) (elim cause [
                        | inl abort ↦ ground (arith, page, abort)
                        | inr (root', prefix', id', sess, parts', found) ↦
                            absurd (ground (arith, parts, parts', found, unknown))
                      ])),
                    )
                | inr (sess, found) ↦ (
                  (λ panics. inr (root, prefix, id, sess, parts, found)),
                  (λ cause.
                      subst IsPanic
                        (sym (
                          own_panic now completes is_delete path root prefix id sess app parts
                            found))
                        tt),
                )
              ]
        ]

  -- However a request ends, the books stay right, and at most one container is left behind, by an
  -- aborted DELETE.
  pub proxy-Accounts :
      (leaked p : ℕ) (now : ℤ) (completes is_delete : Bool) (path : Str) (app app' : App s)
      (o : Outcome)
      → Accounts s leaked p app
      → AllWebDriver app.sessions
      → proxy s now completes is_delete path app ≡ some (app', o)
      → (leaked' : ℕ) × Accounts s leaked' p app'
        × (leaked' ≤ leaves completes leaked)
        × AllWebDriver app'.sessions
  proxy-Accounts leaked p now completes is_delete path app app' o a web e =
      elim (Bool-cases
        (eqb (length (split b'/' path)) 4 && get_or_nil (split b'/' path) 3 == vendor_prefix)) [
          | inr safe ↦
              let (app'', o', leaked', e', a', few, _, web') =
                proxy_total s leaked p now completes is_delete path app a web safe in
              let same : app'' ≡ app' = ground (arith, e, e') in
              (
                leaked',
                subst (Accounts s leaked' p) same a',
                few,
                subst (λ x. AllWebDriver x.sessions) same web',
              )
          | inl unsafe ↦
              let (root, prefix, id, parts) = four_fragments (split b'/' path) unsafe in
              elim (Option-cases (lookup id app.sessions)) [
                | inl unknown ↦
                    let q =
                      unknown_id now completes is_delete path root prefix id app parts unknown in
                    let same : app ≡ app' = ground (arith, q, e) in
                    (
                      leaked,
                      subst (Accounts s leaked p) same a,
                      ground arith,
                      subst (λ x. AllWebDriver x.sessions) same web,
                    )
                | inr (sess, found) ↦
                    let q =
                      own_panic now completes is_delete path root prefix id sess app parts found in
                    absurd (ground (arith, q, e))
              ]
        ]
