-- ===== src/Handlers/App.antt =====
-- The part of the service's state that the session handlers change.
use selenwright.Prelude.{Bool, List, none, some, Str}
use selenwright.Protect.Queue.{Semaphore, Queue}
use selenwright.Session.{Session, SessionMap}
use selenwright.Session.Watchdog
use selenwright.Prelude.{ℤ}

-- `app` of server.go. `containers` counts the containers that have been started and not been
-- cancelled; `uploads_removed` are the ids whose upload directory has been removed, latest first.
pub record App (s : Semaphore) : Type 0 where
  pub queue : Queue s
  pub sessions : SessionMap
  pub enable_file_upload : Bool
  pub containers : ℤ
  pub uploads_removed : List Str

abbrev pub with_watchdog : Session → Watchdog.Watchdog → Session
with_watchdog sess w = record sess { watchdog = some w }

unfoldable pub touch_watchdog : ℤ → Session → Session
touch_watchdog now sess = elim sess.watchdog [
  | none ↦ sess
  | some w ↦ with_watchdog sess (Watchdog.touch now w).0
]

unfoldable pub stop_watchdog : Session → Session
stop_watchdog sess = elim sess.watchdog [
  | none ↦ sess
  | some w ↦ with_watchdog sess (Watchdog.stop w).0
]
