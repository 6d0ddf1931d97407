-- ===== src/Handlers/Proxy/Answering.antt =====
-- Requests to WebDriver sessions are answered, and the books stay right.
use selenwright.Prelude.{
  refl, not, ap, sym, ◌∙◌, ℕ, ◌≤◌, ◌≡◌, Bool, false, some, Str, lookup, length, get_elem?, split, ℤ,
  arith, Option-cases, Bool-cases, inl, inr, subst, ◌==◌, ◌&&◌, eqb, if◌then◌else◌,
}
use selenwright.Protect.Queue.{Semaphore}
use selenwright.Session.{Session, is_playwright, protocol_playwright}
use selenwright.Handlers.App.{App, touch_watchdog}
use selenwright.Handlers.Proxy.{Outcome, error_page, vendor_prefix, get_or_nil, serve_http, proxy}
use selenwright.Handlers.Lifecycle.{
  Accounts, AllWebDriver, delete-AllWebDriver, insert-AllWebDriver,
}
use selenwright.Handlers.Proxy.Committing.{
  proxy_session_total, leaves, ends, is_vendor, is_aborted, serve_http-aborted, sessions_after,
}

touch_watchdog-protocol :
    (now : ℤ) (sess : Session) → (touch_watchdog now sess).protocol ≡ sess.protocol
unfolding touch_watchdog
touch_watchdog-protocol now sess = elim (Option-cases sess.watchdog) [
  | inl no_timer ↦ ground (arith, no_timer)
  | inr (w, timer) ↦ ground (arith, timer)
]

module _ (s : Semaphore) where
  -- Where all sessions are WebDriver's, a request of any method and path but the one below ends
  -- without a panic but that of an aborted ServeHTTP, and the books stay right. Only an aborted
  -- DELETE leaves a container behind.
  pub proxy_total :
      (leaked p : ℕ) (now : ℤ) (completes is_delete : Bool) (path : Str) (app : App s)
      → Accounts s leaked p app
      → AllWebDriver app.sessions
      → (eqb (length (split b'/' path)) 4 && get_or_nil (split b'/' path) 3 == vendor_prefix)
        ≡ false
      → (app' : App s) × (o : Outcome) × (leaked' : ℕ) × (proxy s now completes is_delete path app
          ≡ some (app', o))
        × Accounts s leaked' p app'
        × (leaked' ≤ leaves completes leaked)
        × (is_aborted o ≡ not completes)
        × AllWebDriver app'.sessions
  unfolding proxy
  proxy_total leaked p now completes is_delete path app a web safe =
      let fragments = split b'/' path in
      let page = serve_http-aborted completes error_page refl in
      elim (Option-cases (get_elem? fragments 2)) [
        | inl short ↦ (
          app,
          serve_http completes error_page,
          leaked,
          ground (arith, short),
          a,
          ground arith,
          page,
          web,
        )
        | inr (id, named) ↦ elim (Option-cases (lookup id app.sessions)) [
          | inl unknown ↦ (
            app,
            serve_http completes error_page,
            leaked,
            ground (arith, named, unknown),
            a,
            ground arith,
            page,
            web,
          )
          | inr (sess, found) ↦
              let (app', o, q, a', after, aborts) =
                proxy_session_total s leaked p now completes is_delete fragments path id sess app a
                  found (web id sess found) safe in
              let touched : is_playwright (touch_watchdog now sess) ≡ false =
                ap (λ x. x == protocol_playwright) (touch_watchdog-protocol now sess)
                ∙ web id sess found in
              let web' : AllWebDriver (sessions_after s now is_delete fragments id sess app) =
                elim (Bool-cases (ends is_delete fragments)) [
                  | inl over ↦ rw over (delete-AllWebDriver id app.sessions web)
                  | inr on ↦ elim (Bool-cases (is_vendor fragments)) [
                    | inl v ↦ rw (on, v) web
                    | inr v ↦
                        rw (on, v)
                          (insert-AllWebDriver id (touch_watchdog now sess) app.sessions web
                            touched)
                  ]
                ] in
              (
                app',
                o,
                if ends is_delete fragments then leaves completes leaked else leaked,
                ground (arith, named, found, q),
                a',
                ground arith,
                aborts,
                subst AllWebDriver (sym after) web',
              )
        ]
      ]
