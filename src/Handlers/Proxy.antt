-- ===== src/Handlers/Proxy.antt =====
-- The handler `proxy` of selenwright.go.
pub mod Committing
pub mod Answering
pub mod Ending
pub mod Overlapping
use selenwright.Prelude.{
  ℕ, zero, suc, Bool, true, false, List, [], ◌∷◌, ◌++◌, Option, none, some, Str, lit, ◌==◌, lookup,
  insert, delete, length, get_elem?, drop, take, split, join, clean, slash, has_suffix, ◌-◌, ltb,
  eqb, is_empty, ◌&&◌, ◌||◌, if◌then◌else◌, ℤ, negsuc, ◌+ℤ◌,
}
use selenwright.Protect.Queue.{Semaphore, Queue}
use selenwright.Protect.Queue
use selenwright.Session.{Session, SessionMap, is_playwright}
use selenwright.Handlers.App.{App, touch_watchdog, stop_watchdog}

abbrev pub vendor_prefix : Str
vendor_prefix = lit "aerokube"

abbrev pub paths_error : Str
paths_error = lit "/error"

-- Where the reverse proxy sends a request.
pub record Target : Type 0 where
  pub host : Str
  pub path : Str
  pub host_header : Str
  pub upload_id : Option Str

pub data Outcome : Type 0 where
  error_page : Outcome
  vendor : Str → Outcome
  forwarded : Target → Outcome
  -- A DELETE that has taken the session, which is then as given.
  ended : Session → Target → Outcome
  -- ServeHTTP has left by a panic, http.ErrAbortHandler, and so has the handler.
  aborted : Outcome → Outcome

-- The rewritten path of a vendor request; `none` is fragments[4] out of range, which panics.
pub vendor_path : List Str → Str → Option Str
vendor_path fragments id = elim (get_elem? fragments 4) [
  | none ↦ none
  | some kind ↦ some (clean (join b'/' ([] ∷ kind ∷ id ∷ drop 5 fragments)))
]

-- `strings.TrimSuffix(path, "/se/file") + "/file"`, where the path ends so.
abbrev upload_path : Str → Str
upload_path path =
    if has_suffix path (lit "/se/file") then take (length path - 8) path ++ lit "/file" else path

abbrev pub get_or_nil : List Str → ℕ → Str
get_or_nil fragments i = elim (get_elem? fragments i) [ none ↦ [] | some f ↦ f ]

-- The director. A session's own upload endpoint is serve_http by this service.
unfoldable pub target : Bool → List Str → Str → Str → Session → Target
target enable_file_upload fragments path id sess =
    let (url_host, url_path) = sess.url in
    if eqb (length fragments) 4 && get_or_nil fragments 3 == lit "file" && enable_file_upload
    then record { host = []; path = lit "/file"; host_header = []; upload_id = some id }
    else record {
      host = url_host;
      path = clean (url_path ++ upload_path path);
      host_header = if is_empty sess.origin then lit "localhost" else sess.origin;
      upload_id = none;
    }

-- `completes` is whether ServeHTTP returns.
abbrev serve_http : Bool → Outcome → Outcome
serve_http completes o = if completes then o else aborted o

module _ (s : Semaphore) where
  -- The critical section of a DELETE: stop the timer, forget the session, free its slot. `none` is
  -- the panic of the semaphore.
  unfoldable pub commit_delete : Str → Session → App s → Option (App s × Session)
  commit_delete id sess app = elim (Queue.release s app.queue) [
    | none ↦ none
    | some q ↦ some (
      record app {
        queue = q;
        sessions = delete id app.sessions;
        uploads_removed =
            if app.enable_file_upload then id ∷ app.uploads_removed else app.uploads_removed;
      },
      stop_watchdog sess,
    )
  ]

  abbrev container_stopped : App s → App s
  container_stopped app = record app { containers = app.containers +ℤ negsuc 0 }

  -- The session's Cancel: for a WebDriver session that of its container, for a Playwright session its
  -- cleanup, which forgets the session and frees a slot of its own accord, and which has not run
  -- before where the session was found in the map; all that it does is in Playwright/Ending.
  unfoldable cancel : Str → Session → App s → Option (App s)
  cancel id sess app =
      if is_playwright sess
      then (elim (Queue.release s app.queue) [
        | none ↦ none
        | some q ↦
            some (container_stopped (record app { queue = q; sessions = delete id app.sessions }))
      ])
      else some (container_stopped app)

  -- The end of the handler: Cancel, unless ServeHTTP has left by a panic.
  unfoldable cleanup : Bool → Str → Session → App s → Option (App s)
  unfolding cancel
  cleanup completes id sess app = if completes then cancel id sess app else some app

  -- What the handler does with a session that it has found.
  unfoldable pub proxy_session :
      ℤ → Bool → Bool → List Str → Str → Str → Session → App s → Option (App s × Outcome)
  unfolding commit_delete cleanup
  proxy_session now completes is_delete fragments path id sess app =
      if ltb 3 (length fragments) && get_or_nil fragments 3 == vendor_prefix
      then (elim (vendor_path fragments id) [
        | none ↦ none
        | some rewritten ↦ some (app, serve_http completes (vendor rewritten))
      ])
      else if is_delete && eqb (length fragments) 3
      then (elim (commit_delete id sess app) [
        | none ↦ none
        | some (app', sess') ↦ elim (cleanup completes id sess' app') [
          | none ↦ none
          | some app'' ↦ some (
            app'',
            serve_http completes
                (ended sess' (target app.enable_file_upload fragments path id sess')),
          )
        ]
      ])
      else let touched = touch_watchdog now sess in
        some (
          record app { sessions = insert id touched app.sessions },
          serve_http completes
              (forwarded (target app.enable_file_upload fragments path id touched)),
        )

  -- The whole handler. `none` is a panic of its own.
  unfoldable pub proxy : ℤ → Bool → Bool → Str → App s → Option (App s × Outcome)
  unfolding proxy_session
  proxy now completes is_delete path app =
      let fragments = split b'/' path in
      elim (get_elem? fragments 2) [
        | none ↦ some (app, serve_http completes error_page)
        | some id ↦ elim (lookup id app.sessions) [
          | none ↦ some (app, serve_http completes error_page)
          | some sess ↦ proxy_session now completes is_delete fragments path id sess app
        ]
      ]
