-- ===== src/Playwright/Starting.antt =====
-- playwright.go: the handler `playwright` up to the start of its tunnel. What the request holds and
-- what the environment does are its arguments.
use selenwright.Prelude.{
  ℕ, Bool, true, false, List, [], ◌∷◌, Option, none, some, Str, StrMap, lit, ◌==◌, insert, is_empty,
  to_lower, ◌||◌, if◌then◌else◌, ℤ, pos, negsuc, ◌+ℤ◌, Result, ok, err,
}
use selenwright.Protect.Queue.{Semaphore}
use selenwright.Protect.Queue
use selenwright.Protect.Access.{Identity}
use selenwright.Session.{protocol_playwright, Session, Container, HostPort}
use selenwright.Session.Caps.{Caps}
use selenwright.Session.LogSink.{LogSink, new_log_sink}
use selenwright.Session.Sanitize.{SanitizeError, sanitize}
use selenwright.Session.Watchdog.{new_watchdog, start}
use selenwright.Handlers.App.{App}
use selenwright.Handlers.Capabilities.{configure_log_capture}
use selenwright.Playwright.Url.{parse_playwright_path}
use selenwright.Playwright.SessionId.{SessionIdError, resolve_playwright_session_id}

pub data Event : Type 0 where
  file_created session_stopped : Str → Event

-- The service's state with what only the Playwright sessions use: the upstream connections that are
-- open, whether the sync.Once of each session's cleanup is spent, the sessions' log sinks, the
-- directory of logs, the events published and the reasons counted by the metrics, latest first.
pub record World (s : Semaphore) : Type 0 where
  pub app : App s
  pub upstreams : ℤ
  pub cleaned : StrMap Bool
  pub sinks : StrMap LogSink
  pub files : StrMap Str
  pub events : List Event
  pub reasons : List Str

pub record Settings : Type 0 where
  pub default_enable_vnc : Bool
  pub caps_policy : Str
  pub log_output_dir : Str
  pub save_all_logs : Bool
  pub timeout : ℤ

-- `query` is `r.URL.Query().Get`, `session_header` the external session id, `user` the name that
-- info.RequestInfo gives the client.
pub record Request : Type 0 where
  pub encoded_path : Str
  pub is_web_socket_upgrade : Bool
  pub query : Str → Str
  pub session_header : Str
  pub identity : Identity
  pub user : Str

-- `url` is the host and the path of PlaywrightURL.
pub record PlaywrightService : Type 0 where
  pub url : Option (Str × Str)
  pub container : Option Container
  pub host_port : HostPort
  pub origin : Str
  pub downloads_dir : Str

-- What the handler takes from elsewhere: url.PathUnescape, the artifact history's switch, the name of
-- a temporary file, the manager with the start of a service, the dial of the upstream, the random
-- bytes, the upgrade of the client's connection, and the clock.
pub record Environment : Type 0 where
  pub unescape : Str → Option Str
  pub history_enabled : Bool
  pub log_temp_name : Str
  pub find : Caps → Option (Option PlaywrightService)
  pub dials : Bool
  pub random : ℕ → Option (List ℕ)
  pub upgrades : Bool
  pub started : ℕ
  pub now : ℤ

pub data PlaywrightError : Type 0 where
  bad_playwright_path bad_playwright_request : PlaywrightError
  rejected_caps : SanitizeError → PlaywrightError
  environment_not_available service_startup_failed url_not_configured : PlaywrightError
  playwright_dial_failed : PlaywrightError
  session_id_failed : SessionIdError → PlaywrightError
  playwright_upgrade_failed : PlaywrightError

abbrev blank_caps : Caps
blank_caps = record {
  name = [];
  device_name = [];
  version = [];
  w3c_version = [];
  platform = [];
  w3c_platform = [];
  w3c_device_name = [];
  screen_resolution = [];
  skin = [];
  vnc = false;
  video = false;
  log = false;
  video_name = [];
  video_screen_size = [];
  video_frame_rate = 0;
  video_codec = [];
  log_name = [];
  test_name = [];
  time_zone = [];
  container_hostname = [];
  env = [];
  application_containers = [];
  additional_networks = [];
  hosts_entries = [];
  dns_servers = [];
  labels = [];
  session_timeout = [];
  s3_key_pattern = [];
}

-- ?enableVNC overrides the server's default in either direction.
abbrev pub enable_vnc : Bool → Str → Bool
enable_vnc default value =
    let v = to_lower value in
    if v == lit "true" || v == lit "1"
    then true
    else if v == lit "false" || v == lit "0"
    then false
    else default

unfoldable pub request_caps : Settings → (Str → Str) → Str → Str → Caps
request_caps cfg query browser version = record blank_caps {
  name = browser;
  version = version;
  vnc = enable_vnc cfg.default_enable_vnc (query (lit "enableVNC"));
  test_name = query (lit "name");
  screen_resolution = query (lit "screenResolution");
}

unfoldable pub new_session :
    Settings → Environment → Request → Caps → PlaywrightService → Str × Str → Session
new_session cfg env r caps service url = record {
  quota = if is_empty r.identity.user then r.user else r.identity.user;
  owner_groups = r.identity.groups;
  caps = caps;
  url = url;
  container = service.container;
  host_port = service.host_port;
  origin = service.origin;
  timeout = cfg.timeout;
  watchdog = some (start env.now (new_watchdog cfg.timeout));
  protocol = protocol_playwright;
  started = env.started;
  artifact_history_enabled = env.history_enabled;
  downloads_dir = service.downloads_dir;
}

-- The functions of earlyCleanup.
pub data Cleanup : Type 0 where
  drop_slot service_cancel close_upstream : Cleanup

module _ (s : Semaphore) where
  -- `none` is the panic of the semaphore.
  unfoldable pub run_cleanup : Cleanup → World s → Option (World s)
  run_cleanup drop_slot w = elim (Queue.drop s w.app.queue) [
    | none ↦ none
    | some q ↦ some (record w { app = record w.app { queue = q } })
  ]
  run_cleanup service_cancel w =
      some (record w { app = record w.app { containers = w.app.containers +ℤ negsuc 0 } })
  run_cleanup close_upstream w = some (record w { upstreams = w.upstreams +ℤ negsuc 0 })

  -- The deferred loop, which runs them from the last one back: the last one is the head here.
  unfoldable pub early_cleanup : List Cleanup → World s → Option (World s)
  unfolding run_cleanup
  early_cleanup [] w = some w
  early_cleanup (c ∷ cs) w = elim (run_cleanup c w) [ none ↦ none | some w' ↦ early_cleanup cs w' ]

  -- A return with an error.
  unfoldable pub give_up :
      List Cleanup → PlaywrightError → World s → Option (World s × Result PlaywrightError Str)
  unfolding early_cleanup
  give_up cs e w = elim (early_cleanup cs w) [ none ↦ none | some w' ↦ some (w', err e) ]

  abbrev pub service_started : World s → World s
  service_started w = record w { app = record w.app { containers = w.app.containers +ℤ pos 1 } }

  abbrev pub upstream_dialed : World s → World s
  upstream_dialed w = record w { upstreams = w.upstreams +ℤ pos 1 }

  -- `app.sessions.Put`, `app.queue.Create` and the closures of the new session.
  unfoldable pub register : Str → Session → World s → World s
  register id sess w = record w {
    app = record w.app {
      sessions = insert id sess w.app.sessions;
      queue = Queue.create s w.app.queue;
    };
    cleaned = insert id false w.cleaned;
    sinks = insert id new_log_sink w.sinks;
  }

  -- From the connection to the service to the registered session; `none` is a panic or the end of
  -- the fuel.
  unfoldable pub connected :
      Settings
      → Environment
      → Request
      → ℕ
      → Caps
      → PlaywrightService
      → Str × Str
      → World s
      → Option (World s × Result PlaywrightError Str)
  unfolding give_up register
  connected cfg env r fuel caps service url w =
      let cleanups = close_upstream ∷ service_cancel ∷ drop_slot ∷ [] in
      elim (resolve_playwright_session_id fuel env.random r.session_header w.app.sessions) [
        | none ↦ none
        | some (err e) ↦ give_up cleanups (session_id_failed e) w
        | some (ok id) ↦
            if env.upgrades
            then some (register id (new_session cfg env r caps service url) w, ok id)
            else give_up cleanups playwright_upgrade_failed w
      ]

  -- From the starter that the manager has found on.
  unfoldable pub started :
      Settings
      → Environment
      → Request
      → ℕ
      → Caps
      → Option PlaywrightService
      → World s
      → Option (World s × Result PlaywrightError Str)
  unfolding give_up connected
  started cfg env r fuel caps none w = give_up (drop_slot ∷ []) service_startup_failed w
  started cfg env r fuel caps (some service) w =
      let cleanups = service_cancel ∷ drop_slot ∷ [] in
      elim service.url [
        | none ↦ give_up cleanups url_not_configured (service_started w)
        | some url ↦
            if env.dials
            then connected cfg env r fuel caps service url (upstream_dialed (service_started w))
            else give_up cleanups playwright_dial_failed (service_started w)
      ]

  -- The handler up to the tunnel.
  unfoldable pub playwright :
      Settings → Environment → Request → ℕ → World s → Option (World s × Result PlaywrightError Str)
  unfolding give_up started
  playwright cfg env r fuel w = elim (parse_playwright_path env.unescape r.encoded_path) [
    | none ↦ give_up (drop_slot ∷ []) bad_playwright_path w
    | some (browser, version) ↦
        if r.is_web_socket_upgrade
        then (let given =
              configure_log_capture cfg.log_output_dir cfg.save_all_logs env.log_temp_name
                env.history_enabled (request_caps cfg r.query browser version) in
            elim (sanitize given cfg.caps_policy r.identity.is_admin) [
              | err e ↦ give_up (drop_slot ∷ []) (rejected_caps e) w
              | ok caps ↦ elim (env.find caps) [
                | none ↦ give_up (drop_slot ∷ []) environment_not_available w
                | some starter ↦ started cfg env r fuel caps starter w
              ]
            ])
        else give_up (drop_slot ∷ []) bad_playwright_request w
  ]
