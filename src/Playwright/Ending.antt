-- ===== src/Playwright/Ending.antt =====
-- playwright.go: the end of a session, its log and the handler deletePlaywrightSession; and what the
-- DELETE of selenwright.go does to such a session.
use selenwright.Prelude.{
  Bool, true, List, [], ◌∷◌, ◌++◌, Option, none, some, Str, StrMap, lit, ◌==◌, lookup, insert,
  delete, has_prefix, drop, length, is_empty, join_path, ◌||◌, if◌then◌else◌, negsuc, ◌+ℤ◌,
}
use selenwright.Protect.Queue.{Semaphore}
use selenwright.Protect.Queue
use selenwright.Session.{protocol_playwright, Session}
use selenwright.Session.LogSink.{LogSink, close_sink, content, new_log_sink}
use selenwright.Handlers.Proxy.{commit_delete}
use selenwright.Playwright.Starting.{World, Event, file_created, session_stopped}

unfoldable pub metrics_reason : Str → Str
metrics_reason reason =
    if reason == lit "client"
      || reason == lit "upstream"
      || reason == lit "timeout"
      || reason == lit "shutdown"
    then reason
    else lit "close"

-- The directory of logs, the sum of the ggr host that goes before an id, which is empty without one,
-- and whether a file can be opened to append to, and renamed.
pub record Logs : Type 0 where
  pub log_output_dir : Str
  pub ggr_sum : Str
  pub appends : Bool
  pub renames : Bool

abbrev pub activity_banner : Str
activity_banner = 10 ∷ lit "--- playwright protocol activity ---" ++ 10 ∷ []

-- The log of the session's protocol behind what the container has written.
unfoldable pub append_activity : Bool → Str → Str → StrMap Str → StrMap Str
append_activity appends name text files =
    if is_empty text
    then files
    else if appends
    then (elim (lookup name files) [
      | none ↦ insert name (activity_banner ++ text) files
      | some old ↦ insert name (old ++ activity_banner ++ text) files
    ])
    else files

-- `os.Rename`
unfoldable pub rename_file : Bool → Str → Str → StrMap Str → Option (StrMap Str)
rename_file renames from to files = elim (lookup from files) [
  | none ↦ none
  | some text ↦ if renames then some (insert to text (delete from files)) else none
]

abbrev final_log : Logs → Str → Str
final_log env id = join_path env.log_output_dir ((env.ggr_sum ++ id) ++ lit ".log")

-- The log's file takes its final name; what it gives is the directory and the events after that.
unfoldable pub finalize_playwright_log :
    Logs → Str → LogSink → Session → StrMap Str × List Event → StrMap Str × List Event
unfolding append_activity rename_file
finalize_playwright_log env id sink sess (files, events) =
    if is_empty env.log_output_dir || is_empty sess.caps.log_name
    then (files, events)
    else let old = join_path env.log_output_dir sess.caps.log_name in
      let appended = append_activity env.appends old (content sink) files in
      elim (rename_file env.renames old (final_log env id) appended) [
        | none ↦ (appended, events)
        | some renamed ↦ (renamed, file_created (final_log env id) ∷ events)
      ]

module _ (s : Semaphore) where
  -- The body of `cleanup`, with the log sink as it stands; `none` is the panic of the semaphore.
  unfoldable pub end_session : Logs → Str → Str → LogSink → Session → World s → Option (World s)
  unfolding finalize_playwright_log metrics_reason
  end_session env reason id sink sess w =
      let (files, events) =
        finalize_playwright_log env id (close_sink sink) sess (w.files, w.events) in
      elim (Queue.release s w.app.queue) [
        | none ↦ none
        | some q ↦ some (record {
          app = record w.app {
            queue = q;
            sessions = delete id w.app.sessions;
            containers = w.app.containers +ℤ negsuc 0;
          };
          upstreams = w.upstreams +ℤ negsuc 0;
          cleaned = insert id true w.cleaned;
          sinks = insert id (close_sink sink) w.sinks;
          files = files;
          events = session_stopped (env.ggr_sum ++ id) ∷ events;
          reasons = metrics_reason reason ∷ w.reasons;
        })
      ]

  -- `cleanup` of the session `sess`, under its sync.Once; an id that no session has had has none.
  unfoldable pub cleanup : Logs → Str → Str → Session → World s → Option (World s)
  unfolding end_session
  cleanup env reason id sess w = elim (lookup id w.cleaned) [
    | none ↦ some w
    | some spent ↦ if spent then some w else (elim (lookup id w.sinks) [
      | none ↦ end_session env reason id new_log_sink sess w
      | some sink ↦ end_session env reason id sink sess w
    ])
  ]

  -- The calls of one session's `cleanup`, by the tunnel, the idle timer and Cancel, in their order.
  unfoldable pub cleanups : Logs → List Str → Str → Session → World s → Option (World s)
  unfolding cleanup
  cleanups env [] id sess w = some w
  cleanups env (r ∷ rs) id sess w = elim (cleanup env r id sess w) [
    | none ↦ none
    | some w' ↦ cleanups env rs id sess w'
  ]

  pub data Answer : Type 0 where
    id_required session_not_found not_playwright no_content : Answer

  abbrev session_prefix : Str
  session_prefix = lit "/playwright/session/"

  -- `strings.TrimPrefix(path, "/playwright/session/")`
  abbrev pub session_id_of : Str → Str
  session_id_of path =
      if has_prefix path session_prefix then drop (length session_prefix) path else path

  unfoldable pub delete_playwright_session : Logs → Str → World s → Option (World s × Answer)
  unfolding cleanup
  delete_playwright_session env path w =
      let id = session_id_of path in
      if is_empty id then some (w, id_required) else (elim (lookup id w.app.sessions) [
        | none ↦ some (w, session_not_found)
        | some sess ↦
            if sess.protocol == protocol_playwright
            then (elim (cleanup env (lit "shutdown") id sess w) [
              | none ↦ none
              | some w' ↦ some (w', no_content)
            ])
            else some (w, not_playwright)
      ])

  -- What `proxy` does on DELETE /session/<id>, whatever the session's protocol: the slot is freed, the
  -- request is sent on, and Cancel, which is `cleanup` here, is called.
  unfoldable pub hub_delete : Logs → Str → Session → World s → Option (World s)
  unfolding cleanup
  hub_delete env id sess w = elim (commit_delete s id sess w.app) [
    | none ↦ none
    | some (app', sess') ↦ cleanup env (lit "shutdown") id sess' (record w { app = app' })
  ]
